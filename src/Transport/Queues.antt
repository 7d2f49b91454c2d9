-- ===== src/Transport/Queues.antt =====
-- The queue and lifecycle methods of tplin/transport.go: `Transmit`, `Receive`, `deliverMessage`,
-- `reportError`, `Run`, `Close` and the awaiting flag. Each is one step under its lock.
pub mod Laws
use linbuskit.Base.{ℕ, ◌-◌, List, [], ◌∷◌, ◌++◌, ◌||◌, not, ltb, length}
use linbuskit.Base.{Option, none, some, Bool, true, false, if◌then◌else◌, ok, err}
use linbuskit.Lin.{LinEvent}
use linbuskit.Transport.State.{
  Transport, LinMessage, Error, transport_closed, rx_queue_full, tx_queue_full, tx_capacity,
  rx_capacity, error_capacity, send_or_drop,
}
use linbuskit.Transport.Frames.{build_frames}

-- A full channel drops the error. The log lines are left out.
unfoldable pub report_error : Error → Transport → Transport
report_error e t = record t {
  errors = send_or_drop error_capacity t.errors e;
  receive_errors = send_or_drop error_capacity t.receive_errors e;
}

unfoldable pub deliver_message : LinMessage → Transport → Transport
unfolding report_error
deliver_message msg t =
    if ltb (length t.rx_queue) (rx_capacity t)
    then record t { rx_queue = t.rx_queue ++ msg ∷ [] }
    else report_error rx_queue_full t

-- The frames go into the queue only if there is room for all of them.
abbrev enqueue_frames : List LinEvent → Transport → Transport × Option Error
enqueue_frames frames t =
    let have = tx_capacity t - length t.tx_queue in
    if t.closed
    then (t, some transport_closed)
    else if ltb have (length frames)
    then (t, some (tx_queue_full (length frames) have))
    else (
      record t {
        tx_queue = t.tx_queue ++ frames;
        awaiting_slave_response = not t.is_slave || t.awaiting_slave_response;
        wake = true;
      },
      none,
    )

unfoldable pub transmit : ℕ → ℕ → List ℕ → Transport → Transport × Option Error
transmit nad sid payload t = elim (build_frames t.is_slave t.channel nad sid payload) [
  | ok frames ↦ enqueue_frames frames t
  | err e ↦ (t, some e)
]

-- `Receive`, which does not wait.
abbrev pop_message : List LinMessage → Transport → Transport × Option LinMessage
pop_message [] t = (t, none)
pop_message (msg ∷ rest) t = (record t { rx_queue = rest }, some msg)

unfoldable pub receive : Transport → Transport × Option LinMessage
receive t = pop_message t.rx_queue t

unfoldable pub stop_awaiting_slave_response : Transport → Transport
stop_awaiting_slave_response t = record t { awaiting_slave_response = false }

unfoldable pub set_awaiting_slave_response : Bool → Transport → Transport
unfolding stop_awaiting_slave_response
set_awaiting_slave_response awaiting t =
    if awaiting
    then record t { awaiting_slave_response = true; wake = true }
    else stop_awaiting_slave_response t

-- `Run` marks the transport as running; the goroutine that it starts is `cycle` of `Execute`.
unfoldable pub run : Transport → Transport
run t = if t.running || t.closed then t else record t { running = true }

-- `Close` returns when the goroutine has ended.
unfoldable pub close : Transport → Transport
close t = if t.closed then t else record t { closed = true }
