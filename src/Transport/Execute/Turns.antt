-- ===== src/Transport/Execute/Turns.antt =====
-- What one round of the transport does at its edges: when it leaves the driver alone, and when it
-- gives up a reception.
use linbuskit.Base.{ℕ, ◌+◌, ◌/◌, ◌<◌, ◌≡◌, arith, [], none, some, false, pos}
use linbuskit.Lin.{LinEvent, World}
use linbuskit.Transport.State.{Transport, reset_state}
use linbuskit.Transport.Assembly.{receive_frame, byte_at}
use linbuskit.Transport.Queues.{stop_awaiting_slave_response}
use linbuskit.Transport.Execute.{
  receive_diagnostic, check_multi_frame_timeout, should_request_slave_response, execute,
}

module _ {S : Type 0} (w : World S) where
  -- A stopped master that is idle runs its round without a single call of the driver.
  stop_awaiting_quiet :
      (fuel : ℕ) (t : Transport) (s : S)
      → t.is_slave ≡ false
      → t.closed ≡ false
      → t.tx_queue ≡ []
      → t.config.continuous_slave_poll ≡ false
      → t.assembly.remaining_bytes ≡ 0
      → execute w fuel (stop_awaiting_slave_response t) s
        ≡ some (stop_awaiting_slave_response t, s, none)
  unfolding execute stop_awaiting_slave_response should_request_slave_response
      check_multi_frame_timeout
  stop_awaiting_quiet fuel t s master opened empty quiet at_rest = ground arith

-- A reception that is overdue is given up, so that the consecutive frame it waits for completes
-- nothing and leaves nothing behind.
late_consecutive :
    (now limit : ℕ) (event : LinEvent) (t : Transport)
    → t.config.multi_frame_timeout ≡ pos limit
    → t.assembly.multi_frame_start_time + limit < now
    → 0 < t.assembly.remaining_bytes
    → byte_at event.event_payload 1 / 16 ≡ 2
    → receive_diagnostic now event (check_multi_frame_timeout now t)
      ≡ (record t { assembly = reset_state }, false)
unfolding receive_diagnostic check_multi_frame_timeout receive_frame
late_consecutive now limit event t cfg late waiting consecutive = ground arith
