-- ===== src/Drivers/Toomoss/Calls.antt =====
-- Calls of the methods in driver/toomoss.go, and what a closed driver does.
use linbuskit.Base.{
  ℕ, ◌≡◌, refl, ap, sym, subst, map, List, [], ◌∷◌, Option, none, some, Bool, true, false, not,
  ◌||◌, ltb, ◌==◌, if◌then◌else◌, length, Bool-cases, inl, inr, Result, ok, err, ℤ,
}
use linbuskit.Lin.{LinEvent}
use linbuskit.Drivers.Action.{lift, raise_if, ◌>>=◌}
use linbuskit.Drivers.Elins.{ElinsConfig, ElinsError, normalize_elins_config}
use linbuskit.Drivers.Elins.Filters.{ElinsMsgFilter}
use linbuskit.Drivers.Toomoss.Device.{
  LinExMsg, ToomossApi, ToomossError, driver_closed, empty_messages, different_lengths,
  empty_buffer, not_supported, no_slave_response, break_failed, not_loaded, invalid_payload_length,
  invalid_frame_id, write_failed, elins_error, Procs, Session, Method, channel_error,
  elins_channel_error, configured_channel_error, validate_channel, validate_elins_channel,
  validate_configured_channel,
}
use linbuskit.Drivers.Toomoss.Lifetime.{error_of, close, close_first, close-first}
use linbuskit.Drivers.Toomoss.Traffic.{
  Outcome, lin_master_sync, write_message, master_write, master_read, request_slave_response,
  schedule_slave_response, lin_break, lin_ex_slave_get_data, read_event,
}
use linbuskit.Drivers.Toomoss.Session.{
  of_elins, configure_normalized, configure_elins, lin_ex_ctrl_power_out, elins_slave_read_into,
  elins_slave_read, elins_slave_read_filter,
}

-- A read comes with the fuel for its loop.
pub data Call : Type 0 where
  call_read : ℕ → ℤ → ℕ → Call
  call_sync : List LinExMsg → List LinExMsg → ℕ → Call
  call_write call_schedule : LinEvent → ℕ → Call
  call_master_write : ℕ → List ℕ → ℕ → Call
  call_master_read call_request call_power_out call_elins_read_into : ℕ → ℕ → Call
  call_break call_get_data call_elins_read : ℕ → Call
  call_elins_read_filter : ℕ → Option ElinsMsgFilter → Call
  call_configure : ElinsConfig → Call
  call_close : Call

abbrev pub is_close : Call → Bool
is_close call_close = true
is_close _ = false

abbrev errors_of : {S A : Type 0} → Result ToomossError A × S → Option ToomossError × S
errors_of (r, s) = (error_of (r, s), s)

-- A read that has run out of fuel has come to nothing yet.
abbrev pub read_errors :
    {S : Type 0} → Session S → Option (Outcome × Session S) → Option ToomossError × Session S
read_errors s none = (none, s)
read_errors s (some r) = errors_of r

abbrev if_open : Bool → ToomossError → Option ToomossError
if_open test e = some (if test then e else driver_closed)

-- What a closed driver returns.
abbrev pub refusal : Procs → Option ToomossError → Call → Option ToomossError
refusal procs first (call_read fuel timeout channel) = some driver_closed
refusal procs first (call_sync msg out_msg channel) =
    if length out_msg == 0 || length msg == 0
    then some empty_messages
    else if_open (not (length msg == length out_msg)) different_lengths
refusal procs first (call_write e channel) = some (
    if ltb 8 (length e.event_payload)
    then invalid_payload_length (length e.event_payload)
    else write_failed 0)
refusal procs first (call_schedule e channel) = some not_supported
refusal procs first (call_master_write frame_id payload channel) =
    some
      (if ltb 8 (length payload) then invalid_payload_length (length payload) else write_failed 0)
refusal procs first (call_master_read frame_id channel) =
    some (if ltb 0x3F frame_id then invalid_frame_id frame_id else no_slave_response)
refusal procs first (call_request frame_id channel) = none
refusal procs first (call_power_out channel vbat) =
    if_open (not procs.ctrl_power_out) (not_loaded "LIN_EX_CtrlPowerOut")
refusal procs first (call_elins_read_into room channel) = if_open (room == 0) empty_buffer
refusal procs first (call_break channel) = some break_failed
refusal procs first (call_get_data channel) =
    if_open (not procs.slave_get_data) (not_loaded "LIN_EX_SlaveGetData")
refusal procs first (call_elins_read channel) = some driver_closed
refusal procs first (call_elins_read_filter channel keep) = some driver_closed
refusal procs first (call_configure config) = elim (normalize_elins_config config) [
  | ok c ↦ some driver_closed
  | err e ↦ some (elins_error e)
]
refusal procs first call_close = first

-- A test that fails with an error of its own, before one that is sure.
raise_if-then :
    {S A : Type 0} (test : Bool) (first later : ToomossError) (m : Unit {0} → Method S A)
    (s : Session S)
    → m tt s ≡ (err later, s)
    → errors_of ((raise_if test first >>= m) s) ≡ (some (if test then first else later), s)
unfolding ◌>>=◌
raise_if-then true first later m s h = refl
raise_if-then false first later m s h = ap errors_of h

module _ {S : Type 0} (api : ToomossApi S) where
  -- A call as a step, with its error if it has one.
  unfoldable pub perform : Call → Session S → Option ToomossError × Session S
  unfolding read_event lin_master_sync write_message schedule_slave_response master_write
      master_read request_slave_response lin_break lin_ex_slave_get_data elins_slave_read_into
      elins_slave_read elins_slave_read_filter configure_elins lin_ex_ctrl_power_out close
  perform (call_read fuel timeout channel) s = read_errors s (read_event api fuel timeout channel s)
  perform (call_sync msg out_msg channel) s =
      let (r, s') = lin_master_sync api msg out_msg channel s in (r.error, s')
  perform (call_write e channel) s = errors_of (write_message api e channel s)
  perform (call_schedule e channel) s = errors_of (schedule_slave_response api e channel s)
  perform (call_master_write frame_id payload channel) s =
      errors_of (master_write api frame_id payload channel s)
  perform (call_master_read frame_id channel) s = errors_of (master_read api frame_id channel s)
  perform (call_request frame_id channel) s =
      errors_of (request_slave_response api frame_id channel s)
  perform (call_power_out channel vbat) s = errors_of (lin_ex_ctrl_power_out api channel vbat s)
  perform (call_elins_read_into room channel) s =
      errors_of (elins_slave_read_into api room channel s)
  perform (call_break channel) s = errors_of (lin_break api channel s)
  perform (call_get_data channel) s = errors_of (lin_ex_slave_get_data api channel s)
  perform (call_elins_read channel) s = errors_of (elins_slave_read api channel s)
  perform (call_elins_read_filter channel keep) s =
      errors_of (elins_slave_read_filter api channel keep s)
  perform (call_configure config) s = errors_of (configure_elins api config s)
  perform call_close s = close api s

  -- The same session with the driver closed.
  abbrev closed : Session S → Session S
  closed s = record s { device = record s.device { is_closed = true } }

  perform-at_closed :
      (c : Call) (s : Session S)
      → perform c (closed s) ≡ (refusal s.usb.procs s.device.close_error c, closed s)
  unfolding perform read_event lin_master_sync write_message schedule_slave_response master_write
      master_read request_slave_response lin_break lin_ex_slave_get_data elins_slave_read_into
      elins_slave_read elins_slave_read_filter configure_elins lin_ex_ctrl_power_out close
      validate_channel validate_elins_channel validate_configured_channel channel_error
      elins_channel_error configured_channel_error ◌>>=◌
  perform-at_closed (call_read fuel timeout channel) s = refl
  perform-at_closed (call_sync msg out_msg channel) s =
      elim (Bool-cases (length out_msg == 0 || length msg == 0)) [
        | inl empty ↦ rw empty refl
        | inr some_there ↦ elim (Bool-cases (not (length msg == length out_msg))) [
          | inl other ↦ rw (some_there, other) refl
          | inr same ↦ rw (some_there, same) refl
        ]
      ]
  perform-at_closed (call_write e channel) s =
      raise_if-then (ltb 8 (length e.event_payload)) _ _ _ (closed s) refl
  perform-at_closed (call_schedule e channel) s = refl
  perform-at_closed (call_master_write frame_id payload channel) s =
      raise_if-then (ltb 8 (length payload)) _ _ _ (closed s) refl
  perform-at_closed (call_master_read frame_id channel) s =
      raise_if-then (ltb 0x3F frame_id) _ _ _ (closed s) refl
  perform-at_closed (call_request frame_id channel) s = refl
  perform-at_closed (call_power_out channel vbat) s =
      raise_if-then (not s.usb.procs.ctrl_power_out) _ _ _ (closed s) refl
  perform-at_closed (call_elins_read_into room channel) s =
      raise_if-then (room == 0) _ _ _ (closed s) refl
  perform-at_closed (call_break channel) s = refl
  perform-at_closed (call_get_data channel) s =
      raise_if-then (not s.usb.procs.slave_get_data) _ _ _ (closed s) refl
  perform-at_closed (call_elins_read channel) s = refl
  perform-at_closed (call_elins_read_filter channel keep) s = refl
  perform-at_closed (call_configure config) s = go (normalize_elins_config config)
    where
      go :
          (r : Result ElinsError ElinsConfig)
          → errors_of ((lift (of_elins r) >>= configure_normalized api) (closed s))
            ≡ (elim r [ ok c ↦ some driver_closed | err e ↦ some (elins_error e) ], closed s)
      go (ok c) = refl
      go (err e) = refl
  perform-at_closed call_close s = refl

  pub perform-closed :
      (c : Call) (s : Session S)
      → s.device.is_closed ≡ true
      → perform c s ≡ (refusal s.usb.procs s.device.close_error c, s)
  perform-closed c s h =
      subst
        (λ (b : Bool).
          let s' : Session S = record s { device = record s.device { is_closed = b } } in
          perform c s' ≡ (refusal s.usb.procs s.device.close_error c, s'))
        (sym h) (perform-at_closed c s)

  unfoldable pub perform_toomoss_calls :
      List Call → Session S → List (Option ToomossError) × Session S
  unfolding perform
  perform_toomoss_calls [] s = ([], s)
  perform_toomoss_calls (c ∷ rest) s =
      let (e, s') = perform c s in
      let (later, s'') = perform_toomoss_calls rest s' in (e ∷ later, s'')

  perform_toomoss_calls-closed :
      (calls : List Call) (s : Session S)
      → s.device.is_closed ≡ true
      → perform_toomoss_calls calls s ≡ (map (refusal s.usb.procs s.device.close_error) calls, s)
  unfolding perform_toomoss_calls
  perform_toomoss_calls-closed [] s h = refl
  perform_toomoss_calls-closed (c ∷ rest) s h =
      rw (perform-closed c s h, perform_toomoss_calls-closed rest s h)

  -- After Close of an open driver, every further call leaves the driver, the globals and the library
  -- as they are. Close returns its first result again, RequestSlaveResponse reports nothing, and each
  -- other call fails: with the refusal of its arguments, or since the driver is closed.
  pub perform_toomoss_calls-close :
      (calls : List Call) (s : Session S)
      → s.device.is_closed ≡ false
      → perform_toomoss_calls calls (close api s).1
        ≡ (map (refusal (close api s).1.usb.procs (close api s).0) calls, (close api s).1)
  perform_toomoss_calls-close calls s h =
      subst
        (λ (r : Option ToomossError × Session S).
          perform_toomoss_calls calls r.1 ≡ (map (refusal r.1.usb.procs r.0) calls, r.1))
        (sym (close-first api s h)) (perform_toomoss_calls-closed calls (close_first api s).1 refl)
