-- ===== src/Drivers/Pcan/Calls.antt =====
-- Calls of the methods in driver/pcan.go one after the other, and what a closed driver does.
use linbuskit.Base.{
  ℕ, ◌≡◌, refl, ap, ◌∙◌, List, [], ◌∷◌, Option, none, some, true, false, ltb, if◌then◌else◌, Result,
  err, ℤ,
}
use linbuskit.Lin.{LinEvent}
use linbuskit.Drivers.Action.{◌>>=◌, ◌>>◌, guard, bind_err}
use linbuskit.Drivers.Pcan.{FrameError, validate_pcan_event}
use linbuskit.Drivers.Pcan.Device.{
  Pcan, PcanApi, PcanError, pcan_master, pcan_slave, driver_closed, frame_error, Method,
  validate_state, validate_channel, validate_mode_and_channel,
}
use linbuskit.Drivers.Pcan.Lifetime.{one_error, close, reset, hardware_info}
use linbuskit.Drivers.Pcan.Up.{IsUp}
use linbuskit.Drivers.Pcan.Traffic.{
  Outcome, read_event, write_message, request_slave_response, schedule_slave_response,
  frame_failure,
}
use linbuskit.Drivers.Pcan.Ready.{close-IsReleased}

-- A read comes with the fuel for its loop.
pub data Call : Type 0 where
  call_read : ℕ → ℤ → ℕ → Call
  call_write call_schedule : LinEvent → ℕ → Call
  call_request : ℕ → ℕ → Call
  call_info : ℕ → Call
  call_reset call_close : Call

abbrev pub errors_of : {S A : Type 0} → Result PcanError A × S → List PcanError × S
errors_of (r, p) = (one_error r, p)

-- A read that has run out of fuel has come to nothing yet.
abbrev pub read_errors : {S : Type 0} → Pcan S → Option (Outcome × Pcan S) → List PcanError × Pcan S
read_errors p none = ([], p)
read_errors p (some (r, p')) = (one_error r, p')

-- What a closed driver returns to a call that is refused for another reason first, if there is one.
abbrev pub or_closed : Option PcanError → List PcanError
or_closed none = driver_closed ∷ []
or_closed (some e) = e ∷ []

-- What a closed driver returns. A frame that is not well formed is refused before that is seen.
abbrev pub refusal : List PcanError → Call → List PcanError
refusal first call_close = first
refusal first (call_write e channel) = or_closed (frame_failure (validate_pcan_event (some e)))
refusal first (call_schedule e channel) = or_closed (frame_failure (validate_pcan_event (some e)))
refusal first (call_request frame_id channel) =
    or_closed (
      if ltb 0x3F frame_id then some (frame_error (FrameError.invalid_frame_id frame_id)) else none)
refusal first _ = driver_closed ∷ []

abbrev pub refusals : List PcanError → List Call → List (List PcanError)
refusals first [] = []
refusals first (c ∷ rest) = refusal first c ∷ refusals first rest

module _ {S : Type 0} (api : PcanApi S) where
  -- A call as a step, with its error if it has one.
  unfoldable pub perform : Call → Pcan S → List PcanError × Pcan S
  unfolding read_event write_message schedule_slave_response request_slave_response hardware_info
      reset close
  perform (call_read fuel timeout channel) p = read_errors p (read_event api fuel timeout channel p)
  perform (call_write e channel) p = errors_of (write_message api e channel p)
  perform (call_schedule e channel) p = errors_of (schedule_slave_response api e channel p)
  perform (call_request frame_id channel) p =
      errors_of (request_slave_response api frame_id channel p)
  perform (call_info channel) p = errors_of (hardware_info api channel p)
  perform call_reset p = errors_of (reset api p)
  perform call_close p = close api p

  unfoldable pub perform_calls : List Call → Pcan S → List (List PcanError) × Pcan S
  unfolding perform
  perform_calls [] p = ([], p)
  perform_calls (c ∷ rest) p =
      let (errs, p') = perform c p in
      let (later, p'') = perform_calls rest p' in (errs ∷ later, p'')

  validate_state-closed :
      (p : Pcan S) → p.is_closed ≡ true → validate_state p ≡ (err driver_closed, p)
  unfolding validate_state
  validate_state-closed p h = rw h

  validate_channel-closed :
      (channel : ℕ) (p : Pcan S)
      → p.is_closed ≡ true
      → validate_channel channel p ≡ (err driver_closed, p)
  unfolding validate_channel validate_state ◌>>=◌
  validate_channel-closed channel p h = rw h

  validate_mode-closed :
      (mode channel : ℕ) (p : Pcan S)
      → p.is_closed ≡ true
      → validate_mode_and_channel mode channel p ≡ (err driver_closed, p)
  unfolding validate_mode_and_channel validate_channel validate_state ◌>>=◌
  validate_mode-closed mode channel p h = rw h

  -- A call that looks at its argument, then at the driver.
  guarded-closed :
      (o : Option PcanError) (mode channel : ℕ) (m : Unit {0} → Method S (Unit {0})) (p : Pcan S)
      → p.is_closed ≡ true
      → errors_of ((guard o >> (validate_mode_and_channel mode channel >>= m)) p) ≡ (or_closed o, p)
  unfolding ◌>>=◌
  guarded-closed none mode channel m p h = rw (validate_mode-closed mode channel p h)
  guarded-closed (some e) mode channel m p h = refl

  stopped :
      {A B : Type 0} (m : Method S A) (f : A → Method S B) (p : Pcan S)
      → m p ≡ (err driver_closed, p)
      → errors_of ((m >>= f) p) ≡ (driver_closed ∷ [], p)
  stopped m f p h = ap errors_of (bind_err m f h)

  perform-closed :
      (c : Call) (p : Pcan S) → p.is_closed ≡ true → perform c p ≡ (refusal p.close_error c, p)
  unfolding perform write_message schedule_slave_response request_slave_response hardware_info reset
  perform-closed (call_read fuel timeout channel) p h =
      rw (read_event, validate_channel-closed channel p h)
  perform-closed (call_write e channel) p h =
      guarded-closed (frame_failure (validate_pcan_event (some e))) pcan_master channel _ p h
  perform-closed (call_schedule e channel) p h =
      guarded-closed (frame_failure (validate_pcan_event (some e))) pcan_slave channel _ p h
  perform-closed (call_request frame_id channel) p h =
      guarded-closed
        (if ltb 0x3F frame_id
          then some (frame_error (FrameError.invalid_frame_id frame_id))
          else none)
        pcan_master channel _ p h
  perform-closed (call_info channel) p h =
      stopped (validate_channel channel) _ p (validate_channel-closed channel p h)
  perform-closed call_reset p h = stopped validate_state _ p (validate_state-closed p h)
  perform-closed call_close p h = simp (h, close)

  all_closed :
      (calls : List Call) (p : Pcan S)
      → p.is_closed ≡ true
      → perform_calls calls p ≡ (refusals p.close_error calls, p)
  unfolding perform_calls
  all_closed [] p h = refl
  all_closed (c ∷ rest) p h = rw (perform-closed c p h, all_closed rest p h)

  close_error-close :
      (p : Pcan S) → p.is_closed ≡ false → (close api p).1.close_error ≡ (close api p).0
  unfolding close
  close_error-close p h = rw h

  -- After Close of an open driver, each further call of ReadEvent, WriteMessage,
  -- ScheduleSlaveResponse, RequestSlaveResponse, HardwareInfo or Reset fails and does nothing, to the
  -- driver or to its library, and Close returns its first result again. A frame that is not well
  -- formed or a frame id out of range is refused as such, and all else fails since the driver is
  -- closed.
  pub perform_calls-close :
      (p : Pcan S) (calls : List Call)
      → IsUp p
      → let (errs, q) = close api p in
        perform_calls (call_close ∷ calls) p ≡ (errs ∷ refusals errs calls, q)
  unfolding perform_calls perform
  perform_calls-close p calls up =
      let (errs, q) = close api p in
      ap (λ r. (errs ∷ r.0, r.1))
        (all_closed calls q (close-IsReleased api p up.0 up.1).0
          ∙ ap (λ first. (refusals first calls, q)) (close_error-close p up.0))
