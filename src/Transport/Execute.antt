-- ===== src/Transport/Execute.antt =====
-- `receiveFromDriver`, `execute` and the loop body of `Run` in tplin/transport.go, over a world
-- with a driver. The read loop takes fuel, since a driver may go on giving events; `none` means
-- that the fuel ran out.
pub mod Invariant
pub mod Termination
pub mod Turns
use linbuskit.Base.{ℕ, zero, suc, ◌+◌, List, [], ◌∷◌, ◌||◌, ◌&&◌, not, ltb, ◌==◌, length}
use linbuskit.Base.{Option, none, some, Bool, true, false, if◌then◌else◌, Result, ok, err, is_some}
use linbuskit.Base.{ℤ, pos, negsuc}
use linbuskit.Lin.{LinEvent, DriverError, World, is_rx, is_tx}
use linbuskit.Transport.Config.{master_diagnostic_frame_id, slave_diagnostic_frame_id}
use linbuskit.Transport.State.{
  Transport, LinMessage, Reassembly, Error, transport_closed, read_failed, schedule_failed,
  write_failed, request_failed, reset_state,
}
use linbuskit.Transport.Assembly.{receive_frame}
use linbuskit.Transport.Queues.{deliver_message, report_error}

-- A diagnostic frame for our role. A frame of less than two bytes is ignored.
abbrev pub is_relevant : LinEvent → Transport → Bool
is_relevant event t =
    is_rx event.direction
    && (event.event_id
        == (if t.is_slave then master_diagnostic_frame_id else slave_diagnostic_frame_id))
    && not (ltb (length event.event_payload) 2)

-- `true` if the frame completed a message.
abbrev pub accept : Transport → Reassembly × Option LinMessage → Transport × Bool
accept t (r, none) = (record t { assembly = r }, false)
accept t (r, some msg) = (record (deliver_message msg t) { assembly = r }, true)

unfoldable pub receive_diagnostic : ℕ → LinEvent → Transport → Transport × Bool
receive_diagnostic now event t =
    if is_relevant event t
    then accept t (receive_frame now event.event_payload t.assembly)
    else (t, false)

-- `time.Since(start) > timeout`
abbrev pub timed_out : ℕ → ℕ → ℤ → Bool
timed_out now start (pos limit) = ltb (start + limit) now
timed_out now start (negsuc n) = ltb start (now + n + 1)

unfoldable pub check_multi_frame_timeout : ℕ → Transport → Transport
check_multi_frame_timeout now t =
    if ltb 0 t.assembly.remaining_bytes
      && timed_out now t.assembly.multi_frame_start_time t.config.multi_frame_timeout
    then record t { assembly = reset_state }
    else t

unfoldable pub should_request_slave_response : Transport → Bool
should_request_slave_response t =
    t.config.continuous_slave_poll || t.awaiting_slave_response || ltb 0 t.assembly.remaining_bytes

abbrev pub is_nonempty {ℓ} : {A : Type ℓ} → List A → Bool
is_nonempty [] = false
is_nonempty (x ∷ xs) = true

-- A master with nothing to send and nothing to wait for leaves the driver alone.
abbrev pub is_master_idle : Transport → Bool
is_master_idle t = not t.is_slave && not (is_nonempty t.tx_queue || should_request_slave_response t)

-- Reading does not wait on the master's side, where a frame or a request is due.
abbrev pub timeout_of : Transport → ℤ
timeout_of t = if t.is_slave then t.config.read_timeout else pos 0

abbrev pub report : Option Error → Transport → Transport
report none t = t
report (some e) t = report_error e t

abbrev reported : {S : Type 0} → Option (Transport × S × Option Error) → Option (Transport × S)
reported none = none
reported (some (t, s, failure)) = some (report failure t, s)

module _ {S : Type 0} (w : World S) where
  -- The next response is taken as scheduled also where the driver refused it: that is only logged.
  abbrev schedule_next : List LinEvent → Transport → S → Transport × S
  schedule_next [] t s = (t, s)
  schedule_next (next ∷ rest) t s = (
    record t { tx_queue = rest; scheduled_tx_event = some next },
    (w.driver.schedule_slave_response next t.channel s).1,
  )

  abbrev confirm_scheduled : Option LinEvent → LinEvent → Transport → S → Transport × S
  confirm_scheduled none event t s = (t, s)
  confirm_scheduled (some scheduled) event t s =
      if scheduled.event_id == event.event_id
      then schedule_next t.tx_queue (record t { scheduled_tx_event = none }) s
      else (t, s)

  unfoldable pub receive_from_driver : LinEvent → Transport → S → Transport × S × Bool
  receive_from_driver event t s =
      if t.is_slave && is_tx event.direction && is_some t.scheduled_tx_event
      then (
        (confirm_scheduled t.scheduled_tx_event event t s).0,
        (confirm_scheduled t.scheduled_tx_event event t s).1,
        false,
      )
      else ((receive_diagnostic (w.now s) event t).0, s, (receive_diagnostic (w.now s) event t).1)

  -- What one `ReadEvent` gives: an error, nothing more to read, or an event to receive.
  abbrev on_answer :
      (Bool → Transport → S → Option (Transport × S × Result Error Bool))
      → Result DriverError (Option LinEvent)
      → Bool
      → Transport
      → S
      → Option (Transport × S × Result Error Bool)
  on_answer next (err e) received t s = some (t, s, err (read_failed e))
  on_answer next (ok none) received t s = some (t, s, ok received)
  on_answer next (ok (some event)) received t s =
      let (t', s', complete) = receive_from_driver event t s in next (complete || received) t' s'

  -- The loop over `ReadEvent`: what it ends with is the error, or whether a message was completed.
  unfoldable pub read_loop :
      ℕ → ℤ → Bool → Transport → S → Option (Transport × S × Result Error Bool)
  read_loop zero timeout received t s = none
  read_loop (suc fuel) timeout received t s =
      let (answer, s') = w.driver.read_event timeout t.channel s in
      on_answer (read_loop fuel timeout) answer received t s'

  -- The slave schedules one response at a time. The event is off the queue if that fails.
  abbrev schedule_queued : List LinEvent → Transport → S → Transport × S × Option Error
  schedule_queued [] t s = (t, s, none)
  schedule_queued (event ∷ rest) t s =
      let (failure, s') = w.driver.schedule_slave_response event t.channel s in
      elim failure [
        | none ↦ (record t { tx_queue = rest; scheduled_tx_event = some event }, s', none)
        | some e ↦ (record t { tx_queue = rest }, s', some (schedule_failed e))
      ]

  unfoldable pub slave_turn : Transport → S → Transport × S × Option Error
  slave_turn t s =
      if is_some t.scheduled_tx_event then (t, s, none) else schedule_queued t.tx_queue t s

  abbrev request_response : Bool → Transport → S → Transport × S × Option Error
  request_response received t s =
      if not received && should_request_slave_response t
      then (let (failure, s') =
            w.driver.request_slave_response slave_diagnostic_frame_id t.channel s in
          elim failure [ none ↦ (t, s', none) | some e ↦ (t, s', some (request_failed e)) ])
      else (t, s, none)

  -- The master writes a queued frame, or else requests the response.
  abbrev write_or_request : List LinEvent → Bool → Transport → S → Transport × S × Option Error
  write_or_request [] received t s = request_response received t s
  write_or_request (event ∷ rest) received t s =
      let (failure, s') = w.driver.write_message event t.channel s in
      elim failure [
        | none ↦ (record t { tx_queue = rest }, s', none)
        | some e ↦ (record t { tx_queue = rest }, s', some (write_failed e))
      ]

  unfoldable pub master_turn : Bool → Transport → S → Transport × S × Option Error
  master_turn received t s = write_or_request t.tx_queue received t s

  abbrev pub after_reads : Transport → S → Result Error Bool → Transport × S × Option Error
  after_reads t s (err e) = (t, s, some e)
  after_reads t s (ok received) = if t.is_slave then slave_turn t s else master_turn received t s

  abbrev finish : Option (Transport × S × Result Error Bool) → Option (Transport × S × Option Error)
  finish none = none
  finish (some (t, s, outcome)) = some (after_reads t s outcome)

  unfoldable pub execute : ℕ → Transport → S → Option (Transport × S × Option Error)
  execute fuel t s =
      let t1 = check_multi_frame_timeout (w.now s) t in
      if t.closed
      then some (t, s, some transport_closed)
      else if is_master_idle t1
      then some (t1, s, none)
      else finish (read_loop fuel (timeout_of t1) false t1 s)

  -- What the goroutine of `Run` does when the ticker or `wake` fires: only the latter takes what
  -- waits in `wake`.
  unfoldable pub cycle : Bool → ℕ → Transport → S → Option (Transport × S)
  unfolding execute
  cycle woken fuel t s = reported (execute fuel (if woken then record t { wake = false } else t) s)
