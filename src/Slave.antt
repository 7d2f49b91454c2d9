-- ===== src/Slave.antt =====
-- The slave node of tplin/slave.go. The transport's errors are only logged here, and the log is
-- left out. The mutexes have no field, and the goroutine of `Run` is `simulate`, round by round.
pub mod Laws
use linbuskit.Base.{
  ℕ, ◌+◌, ◌%◌, ◌≡◌, List, [], ◌∷◌, Option, none, some, Bool, true, false, ◌&&◌, ◌||◌, ltb, ◌==◌,
  if◌then◌else◌, length, get_uint16, low_byte, high_byte,
}
use linbuskit.Lin.{World}
use linbuskit.Transport.Config.{
  broadcast_nad, broadcast_supplier_id, broadcast_function_id, read_by_identifier_sid,
  assign_nad_sid, save_configuration_sid, data_identifier_lin_product_identifier,
  data_identifier_serial_number, default_transport_config,
}
use linbuskit.Transport.State.{Transport, LinMessage, Error, new_transport_with_config}
use linbuskit.Transport.Assembly.{byte_at}
use linbuskit.Transport.Queues.{transmit, receive, close}
use linbuskit.Transport.Execute.{execute}

pub record LinSlave : Type 0 where
  pub nad : ℕ
  pub saved_nad : ℕ
  pub supplier_id : ℕ  -- uint16
  pub function_id : ℕ  -- uint16
  pub variant_id : ℕ
  pub serial_number : List ℕ
  pub frame_identifiers : List ℕ
  pub transport : Transport
  pub running : Bool
  pub closed : Bool

abbrev serial_or_default : Option (List ℕ) → List ℕ
serial_or_default none = 0x01 ∷ 0x02 ∷ 0x03 ∷ 0x04 ∷ []
serial_or_default (some serial) = serial

-- A nil serial number is `none`.
unfoldable pub new_slave : ℕ → ℕ → ℕ → ℕ → Option (List ℕ) → List ℕ → LinSlave
new_slave nad variant_id supplier_id function_id serial channel = record {
  nad = nad;
  saved_nad = 0;
  supplier_id = supplier_id;
  function_id = function_id;
  variant_id = variant_id;
  serial_number = serial_or_default serial;
  frame_identifiers = 0 ∷ 0 ∷ 0 ∷ 0 ∷ 0 ∷ [];
  transport = new_transport_with_config true default_transport_config channel;
  running = false;
  closed = false;
}

unfoldable pub run : LinSlave → LinSlave
run s = if s.running || s.closed then s else record s { running = true }

-- `Stop` waits for the goroutine, which clears `running`, and closes the transport.
unfoldable pub stop : LinSlave → LinSlave
stop s =
    if s.closed
    then s
    else record s { closed = true; running = false; transport = close s.transport }

-- A response that the transport refuses is lost.
unfoldable pub respond : ℕ → List ℕ → LinSlave → LinSlave
respond sid payload s = record s { transport = (transmit s.nad sid payload s.transport).0 }

unfoldable pub transmit_negative_response : ℕ → ℕ → LinSlave → LinSlave
transmit_negative_response requested_sid error_code s =
    respond 0x7F (requested_sid ∷ error_code ∷ []) s

unfoldable pub matches_id : ℕ → ℕ → LinSlave → Bool
matches_id supplier_id function_id s =
    (supplier_id == s.supplier_id || supplier_id == broadcast_supplier_id)
    && (function_id == s.function_id || function_id == broadcast_function_id)

-- `nil` is `none`. `append([]byte(nil), serialNumber...)` is nil too where the number is empty.
abbrev nonempty_or_nil : List ℕ → Option (List ℕ)
nonempty_or_nil [] = none
nonempty_or_nil (b ∷ bs) = some (b ∷ bs)

unfoldable pub get_id_bytes : ℕ → LinSlave → Option (List ℕ)
get_id_bytes id_type s =
    if id_type == data_identifier_lin_product_identifier
    then some (
        low_byte s.supplier_id
        ∷ high_byte s.supplier_id
        ∷ low_byte s.function_id
        ∷ high_byte s.function_id
        ∷ s.variant_id
        ∷ [])
    else if id_type == data_identifier_serial_number
    then nonempty_or_nil s.serial_number
    else none

abbrev pub positive_sid : ℕ → ℕ
positive_sid sid = (sid + 0x40) % 256

abbrev answer_identifier : LinMessage → Option (List ℕ) → LinSlave → LinSlave
answer_identifier msg none s = transmit_negative_response msg.sid 0x12 s
answer_identifier msg (some response) s = respond (positive_sid msg.sid) response s

unfoldable pub handle_read_by_identifier : LinMessage → LinSlave → LinSlave
unfolding transmit_negative_response matches_id get_id_bytes
handle_read_by_identifier msg s =
    let at = byte_at msg.payload in
    if ltb (length msg.payload) 5
    then transmit_negative_response msg.sid 0x13 s
    else if matches_id (get_uint16 (at 1) (at 2)) (get_uint16 (at 3) (at 4)) s
    then answer_identifier msg (get_id_bytes (at 0) s) s
    else s

-- The response is sent with the old NAD, and the NAD is changed also where it could not be queued.
unfoldable pub handle_assign_nad : LinMessage → LinSlave → LinSlave
unfolding matches_id
handle_assign_nad msg s =
    let at = byte_at msg.payload in
    if ltb (length msg.payload) 5
    then s
    else if matches_id (get_uint16 (at 0) (at 1)) (get_uint16 (at 2) (at 3)) s
    then record (respond (positive_sid msg.sid) [] s) { nad = at 4 }
    else s

-- What `simulate` does with a message that it took from the queue.
unfoldable pub handle_message : LinMessage → LinSlave → LinSlave
unfolding handle_read_by_identifier handle_assign_nad
handle_message msg s =
    if msg.nad == s.nad || msg.nad == broadcast_nad
    then (if msg.sid == read_by_identifier_sid
        then handle_read_by_identifier msg s
        else if msg.sid == save_configuration_sid
        then respond (positive_sid msg.sid) [] (record s { saved_nad = s.nad })
        else if msg.sid == assign_nad_sid
        then handle_assign_nad msg s
        else s)
    else s

abbrev pub handle_received : Transport × Option LinMessage → LinSlave → LinSlave
handle_received (t, none) s = record s { transport = t }
handle_received (t, some msg) s = handle_message msg (record s { transport = t })

-- After a failed `execute` the queue is left alone until the next round.
abbrev after_execute :
    {S : Type 0} → Option (Transport × S × Option Error) → LinSlave → Option (LinSlave × S)
after_execute none s = none
after_execute (some (t, st, some e)) s = some (record s { transport = t }, st)
after_execute (some (t, st, none)) s = some (handle_received (receive t) s, st)

unfoldable pub simulate : {S : Type 0} → World S → ℕ → LinSlave → S → Option (LinSlave × S)
unfolding handle_message
simulate w fuel s st = after_execute (execute w fuel s.transport st) s
