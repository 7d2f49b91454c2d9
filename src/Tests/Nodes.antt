-- ===== src/Tests/Nodes.antt =====
-- Runs of the slave, the master and the client, and their theorems at concrete inputs.
use linbuskit.Base.{
  ℕ, zero, ◌+◌, ◌≤◌, ◌≡◌, ◌↔◌, ◌⊎◌, inl, inr, refl, arith, List, [], ◌∷◌, Option, none, some, Bool,
  true, false, ok, pos,
}
use linbuskit.Transport.Config.{save_configuration_sid, assign_nad_sid}
use linbuskit.Transport.State.{LinMessage}
use linbuskit.Transport.Queues.{transmit}
use linbuskit.Transport.Queues.Laws.{IsValid}
use linbuskit.Transport.Exchange.{receive_events}
use linbuskit.Slave.{handle_message, get_id_bytes}
use linbuskit.Slave.Laws.{SameIdentity, Reassigns, handle_message_changes, reassigned_ignores_old}
use linbuskit.Master.{Arrival, message, wait_for_response, get_slave_product_identifier}
use linbuskit.Master.Wait as MasterWait
use linbuskit.Master.Exchange.{
  Exchange, IsReady, arrivals, asking, product_bytes, read_by_identifier-Exchange,
  product_identifier-Exchange,
}
use linbuskit.Client.{
  Client, Answer, Script, await_answer, response_wait_context, is_timeout,
  send_and_rec_with_retries,
}
use linbuskit.Client.Wait as ClientWait
use linbuskit.Client.Retry.{outcome, AllTimedOut, Retries, send_and_rec_with_retries_row}
use linbuskit.Tests.Data.{now_is, master_transport, slave_transport, node}

abbrev save : LinMessage
save = record { nad = 0x7F; sid = 0xB6; payload = [] }

handle_message_changes_example :
    SameIdentity node (handle_message save node)
    × (((handle_message save node).nad ≡ 0x01)
        ⊎ (Reassigns save node × ((handle_message save node).nad ≡ 0)))
    × (((handle_message save node).saved_nad ≡ 0)
        ⊎ ((save.sid ≡ save_configuration_sid) × ((handle_message save node).saved_nad ≡ 0x01)))
handle_message_changes_example = handle_message_changes save node

abbrev to_nad_9 : LinMessage
to_nad_9 = record { nad = 0x01; sid = 0xB0; payload = 0x34 ∷ 0x12 ∷ 0xFF ∷ 0xFF ∷ 9 ∷ [] }

to_nad_9-Reassigns : Reassigns to_nad_9 node
to_nad_9-Reassigns = ground arith

reassigned_ignores_old_example :
    (handle_message (record save { nad = 0x01 }) (handle_message to_nad_9 node)
      ≡ handle_message to_nad_9 node)
    × ((handle_message to_nad_9 node).transport
        ≡ (transmit 0x01 (assign_nad_sid + 0x40) [] slave_transport).0)
reassigned_ignores_old_example =
    reassigned_ignores_old to_nad_9 (record save { nad = 0x01 }) node to_nad_9-Reassigns
      (omega arith) (omega arith) refl

node-IsValid : IsValid node.transport
node-IsValid = ground arith

-- A pending response, a response of another node, and the one that was waited for.
abbrev traffic : List Arrival
traffic =
    message (record { nad = 1; sid = 0x7F; payload = 0xB2 ∷ 0x78 ∷ [] })
    ∷ message (record { nad = 2; sid = 0xF2; payload = [] })
    ∷ message (record { nad = 1; sid = 0xF2; payload = 5 ∷ [] })
    ∷ []

traffic_answer :
    wait_for_response 0xF2 1 traffic ≡ some (ok (record { nad = 1; sid = 0xF2; payload = 5 ∷ [] }))
unfolding wait_for_response
traffic_answer = refl

wait_for_response_exact_example :
    (wait_for_response 0xF2 1 traffic
      ≡ some (ok (record { nad = 1; sid = 0xF2; payload = 5 ∷ [] })))
    ↔ MasterWait.Waits 0xF2 1 traffic (some (ok (record { nad = 1; sid = 0xF2; payload = 5 ∷ [] })))
wait_for_response_exact_example =
    MasterWait.wait_for_response_exact 0xF2 1 traffic
      (some (ok (record { nad = 1; sid = 0xF2; payload = 5 ∷ [] })))

ready : (is_slave : Bool) → IsReady is_slave 1 (record master_transport { is_slave = is_slave })
ready is_slave = record {
  role = refl;
  opened = refl;
  no_message = refl;
  room = omega arith;
  tx_room = omega arith;
}

product_identifier-Exchange_example :
    (x : Exchange
      (now_is 0)
      (now_is 0)
      0x7F
      0
      0x7FFF
      0x5678
      (product_bytes node)
      master_transport
      node)
    × ((get_slave_product_identifier 0x7FFF 0x5678 0x7F
          (arrivals
            (receive_events
              (now_is 0)
              x.reply
              (asking 0x7F 0 0x7FFF 0x5678 master_transport)).rx_queue)
          master_transport).1
        ≡ some (ok (0x01, 0x1234, 0x5678, 0x10)))
product_identifier-Exchange_example =
    product_identifier-Exchange (now_is 0) (now_is 0) 0x7F 0x7FFF 0x5678 master_transport node
      (ready false) (ready true) (inr refl) (omega arith) (omega arith) (omega arith) (omega arith)
      (inr refl, inl refl)

read_by_identifier-Exchange_example :
    Exchange (now_is 0) (now_is 0) 0x01 1 0x1234 0x5678 (1 ∷ 2 ∷ 3 ∷ 4 ∷ []) master_transport node
read_by_identifier-Exchange_example =
    read_by_identifier-Exchange (now_is 0) (now_is 0) 0x01 1 0x1234 0x5678 (1 ∷ 2 ∷ 3 ∷ 4 ∷ [])
      master_transport node (ready false) (ready true) (inl refl) (omega arith) (omega arith)
      (inl refl, inl refl) (unfold get_id_bytes in refl) (omega arith)

-- The pending response comes before the deadline, and the answer after it.
abbrev slow : List (ℕ × Arrival)
slow =
    (90, message (record { nad = 1; sid = 0x7F; payload = 0x22 ∷ 0x78 ∷ [] }))
    ∷ (130, message (record { nad = 1; sid = 0x62; payload = 7 ∷ [] }))
    ∷ []

abbrev slow_answer : Option Answer
slow_answer = some (record { nad = 1; response = 0x62 ∷ 7 ∷ []; error = none })

slow_run : await_answer (pos 50) 1 0x22 (some 100) slow ≡ slow_answer
unfolding await_answer response_wait_context
slow_run = refl

await_answer_exact_example :
    (await_answer (pos 50) 1 0x22 (some 100) slow ≡ slow_answer)
    ↔ ClientWait.Awaits (pos 50) 1 0x22 (some 100) slow slow_answer
await_answer_exact_example =
    ClientWait.await_answer_exact (pos 50) 1 0x22 (some 100) slow slow_answer

abbrev retrying : Client
retrying = record {
  transport = master_transport;
  config = record {
    target_nad = 1;
    default_timeout = pos 100;
    response_pending_timeout = pos 50;
    max_retries = pos 2;
    retryable_sids = (0x22, true) ∷ [];
    channel = 0;
    continuous_slave_poll = false;
  };
}

abbrev request : List ℕ
request = 0x22 ∷ 0xF1 ∷ []

-- The first attempt hears nothing.
abbrev scripts : ℕ → Script
scripts zero = record { start = 0; arrivals = [] }
scripts i = record { start = 0; arrivals = slow }

send_and_rec_with_retries_row_example :
    (k : ℕ) × (n : ℕ) × Retries retrying.config request k
    × (n ≤ k)
    × (send_and_rec_with_retries 1 request (pos 100) scripts retrying ≡ (
      record retrying {
        transport = (outcome retrying.config 1 request (pos 100) scripts 0 n master_transport).0;
      },
      (outcome retrying.config 1 request (pos 100) scripts 0 n master_transport).1,
    ))
    × AllTimedOut retrying.config 1 request (pos 100) scripts 0 n master_transport
    × ((n ≡ k)
        ⊎ (is_timeout (outcome retrying.config 1 request (pos 100) scripts 0 n master_transport).1
            ≡ false))
send_and_rec_with_retries_row_example =
    send_and_rec_with_retries_row 1 request (pos 100) scripts retrying
