-- ===== src/Master.antt =====
-- The master node of tplin/master.go, and the blocking reception of tplin/transport.go that it
-- waits in. What happens while it waits is the list of what `ReceiveBlocking` returns, in order.
pub mod Wait
pub mod Exchange
use linbuskit.Base.{
  ℕ, ◌+◌, ◌-◌, ◌*◌, ◌%◌, ◌≡◌, List, [], ◌∷◌, Option, none, some, Bool, true, false, ◌&&◌, not, ltb,
  leb, ◌==◌, if◌then◌else◌, length, take, get_uint16, low_byte, high_byte, Result, ok, err,
}
use linbuskit.Transport.Config.{
  broadcast_nad, read_by_identifier_sid, assign_nad_sid, data_identifier_lin_product_identifier,
  data_identifier_serial_number,
}
use linbuskit.Transport.State.{Transport, LinMessage, Error}
use linbuskit.Transport.Assembly.{byte_at}
use linbuskit.Transport.Queues.{transmit, stop_awaiting_slave_response}

-- How a context ends.
pub data ContextError : Type 0 where
  canceled deadline_exceeded : ContextError

-- What `ReceiveBlocking` returns: a message, an error of the transport, that the transport is
-- closed, or the error of the context.
pub data Arrival : Type 0 where
  message : LinMessage → Arrival
  failure : Error → Arrival
  closed : Arrival
  ended : ContextError → Arrival

-- One choice of its `select`, from the transport and with the transport that is left. `done` is
-- closed when `Close` is through, and so is the error channel.
pub data ReceiveBlocking (t : Transport) (context : Option ContextError)
    : Arrival → Transport → Type 0 where
  take_message :
      (m : LinMessage) (rest : List LinMessage)
      → t.rx_queue ≡ m ∷ rest
      → ReceiveBlocking t context (message m) (record t { rx_queue = rest })
  take_error :
      (e : Error) (rest : List Error)
      → t.receive_errors ≡ e ∷ rest
      → ReceiveBlocking t context (failure e) (record t { receive_errors = rest })
  see_closed : t.closed ≡ true → ReceiveBlocking t context closed t
  see_ended : (c : ContextError) → context ≡ some c → ReceiveBlocking t context (ended c) t

-- The errors of the master's methods. `refused` is what `Transmit` returned.
pub data MasterError : Type 0 where
  timeout context_canceled transport_closed invalid_payload : MasterError
  refused transport_failed : Error → MasterError
  negative_response : ℕ → ℕ → MasterError

-- `none` means that the call still waits after all that has arrived.
abbrev pub Waiting : Type 0 → Type 0
Waiting A = Option (Result MasterError A)

-- Whether a negative response is about the service that was requested, and final.
unfoldable pub is_rejection : ℕ → LinMessage → Bool
is_rejection sid msg =
    leb 2 (length msg.payload)
    && byte_at msg.payload 0 == sid
    && not (byte_at msg.payload 1 == 0x78)

abbrev pub requested_sid : ℕ → ℕ
requested_sid expected_rsid = (expected_rsid + 256 - 0x40) % 256

-- What one message means to the wait: `none` lets it go on.
unfoldable pub consider : ℕ → ℕ → LinMessage → Waiting LinMessage
unfolding is_rejection
consider expected_rsid expected_nad msg =
    if not (expected_nad == broadcast_nad) && not (msg.nad == expected_nad)
    then none
    else if msg.sid == expected_rsid
    then some (ok msg)
    else if msg.sid == 0x7F && is_rejection (requested_sid expected_rsid) msg
    then some (err (negative_response (byte_at msg.payload 0) (byte_at msg.payload 1)))
    else none

unfoldable pub wait_for_response : ℕ → ℕ → List Arrival → Waiting LinMessage
unfolding consider
wait_for_response expected_rsid expected_nad [] = none
wait_for_response expected_rsid expected_nad (message msg ∷ rest) =
    elim (consider expected_rsid expected_nad msg) [
      | none ↦ wait_for_response expected_rsid expected_nad rest
      | some answer ↦ some answer
    ]
wait_for_response expected_rsid expected_nad (failure e ∷ rest) = some (err (transport_failed e))
wait_for_response expected_rsid expected_nad (closed ∷ rest) = some (err transport_closed)
wait_for_response expected_rsid expected_nad (ended canceled ∷ rest) = some (err context_canceled)
wait_for_response expected_rsid expected_nad (ended deadline_exceeded ∷ rest) = some (err timeout)

-- A request, and the wait for its response; then the transport stops to await one. A call that
-- still waits has not come that far.
abbrev pub request_step :
    {A : Type 0}
    → (LinMessage → Result MasterError A)
    → Transport
    → Waiting LinMessage
    → Transport × Waiting A
request_step read t none = (t, none)
request_step read t (some (err e)) = (stop_awaiting_slave_response t, some (err e))
request_step read t (some (ok msg)) = (stop_awaiting_slave_response t, some (read msg))

-- Transmit, and wait if that was no error. The transport changes in other ways while the master
-- waits; what is returned is what these calls make of it.
abbrev pub sent_step :
    {A : Type 0}
    → (LinMessage → Result MasterError A)
    → Waiting LinMessage
    → Transport × Option Error
    → Transport × Waiting A
sent_step read answer (t, some e) = (t, some (err (refused e)))
sent_step read answer (t, none) = request_step read t answer

abbrev pub assign_nad_payload : ℕ → ℕ → ℕ → List ℕ
assign_nad_payload new_nad supplier_id function_id =
    low_byte supplier_id
    ∷ high_byte supplier_id
    ∷ low_byte function_id
    ∷ high_byte function_id
    ∷ new_nad
    ∷ []

unfoldable pub assign_slave_nad : ℕ → ℕ → ℕ → ℕ → List Arrival → Transport → Transport × Waiting ℕ
assign_slave_nad new_nad supplier_id function_id nad arrivals t =
    sent_step (λ msg. ok msg.nad) (wait_for_response (assign_nad_sid + 0x40) nad arrivals)
      (transmit nad assign_nad_sid (assign_nad_payload new_nad supplier_id function_id) t)

abbrev pub identifier_payload : ℕ → ℕ → ℕ → List ℕ
identifier_payload identifier supplier_id function_id =
    identifier
    ∷ low_byte supplier_id
    ∷ high_byte supplier_id
    ∷ low_byte function_id
    ∷ high_byte function_id
    ∷ []

unfoldable pub read_by_identifier :
    ℕ → ℕ → ℕ → ℕ → List Arrival → Transport → Transport × Waiting (ℕ × List ℕ)
read_by_identifier identifier supplier_id function_id nad arrivals t =
    sent_step (λ msg. ok (msg.nad, msg.payload))
      (wait_for_response (read_by_identifier_sid + 0x40) nad arrivals)
      (transmit nad read_by_identifier_sid (identifier_payload identifier supplier_id function_id)
        t)

abbrev pub continue_with :
    {A B : Type 0} → (A → Result MasterError B) → Transport × Waiting A → Transport × Waiting B
continue_with f (t, none) = (t, none)
continue_with f (t, some (err e)) = (t, some (err e))
continue_with f (t, some (ok a)) = (t, some (f a))

unfoldable pub parse_product_identifier : ℕ × List ℕ → Result MasterError (ℕ × ℕ × ℕ × ℕ)
parse_product_identifier (nad, payload) =
    let at = byte_at payload in
    if ltb (length payload) 5
    then err invalid_payload
    else ok (nad, get_uint16 (at 0) (at 1), get_uint16 (at 2) (at 3), at 4)

unfoldable pub get_slave_product_identifier :
    ℕ → ℕ → ℕ → List Arrival → Transport → Transport × Waiting (ℕ × ℕ × ℕ × ℕ)
unfolding read_by_identifier parse_product_identifier
get_slave_product_identifier supplier_id function_id nad arrivals t =
    continue_with parse_product_identifier (
      read_by_identifier data_identifier_lin_product_identifier supplier_id function_id nad arrivals
        t)

unfoldable pub parse_serial_number : ℕ × List ℕ → Result MasterError (ℕ × List ℕ)
parse_serial_number (nad, payload) =
    if ltb (length payload) 4 then err invalid_payload else ok (nad, take 4 payload)

unfoldable pub get_slave_serial_number :
    ℕ → ℕ → ℕ → List Arrival → Transport → Transport × Waiting (ℕ × List ℕ)
unfolding read_by_identifier parse_serial_number
get_slave_serial_number supplier_id function_id nad arrivals t =
    continue_with parse_serial_number
      (read_by_identifier data_identifier_serial_number supplier_id function_id nad arrivals t)
