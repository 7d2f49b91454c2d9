-- ===== src/Slave/Laws.antt =====
-- What the slave's handlers change, and what they leave alone.
use linbuskit.Base.{
  ℕ, ◌+◌, ◌≤◌, ◌≡◌, ◌≢◌, ◌⊎◌, refl, arith, List, [], ◌∷◌, Option, none, some, length, get_uint16,
}
use linbuskit.Transport.Config.{
  broadcast_nad, assign_nad_sid, save_configuration_sid, broadcast_supplier_id,
  broadcast_function_id,
}
use linbuskit.Transport.State.{LinMessage}
use linbuskit.Transport.Assembly.{byte_at}
use linbuskit.Transport.Queues.{transmit}
use linbuskit.Transport.Queues.Laws.{IsValid, transmit-IsValid}
use linbuskit.Slave.{
  LinSlave, respond, transmit_negative_response, get_id_bytes, answer_identifier, positive_sid,
  handle_read_by_identifier, handle_message,
}

-- The identity of the node, which no request changes.
pub record SameIdentity (s s' : LinSlave) : Type 0 where
  pub supplier : s'.supplier_id ≡ s.supplier_id
  pub function : s'.function_id ≡ s.function_id
  pub variant : s'.variant_id ≡ s.variant_id
  pub serial : s'.serial_number ≡ s.serial_number
  pub identifiers : s'.frame_identifiers ≡ s.frame_identifiers

abbrev pub SelectsSlave : ℕ → ℕ → LinSlave → Type 0
SelectsSlave supplier_id function_id s =
    ((supplier_id ≡ s.supplier_id) ⊎ (supplier_id ≡ broadcast_supplier_id))
    × ((function_id ≡ s.function_id) ⊎ (function_id ≡ broadcast_function_id))

-- A request to take another NAD that the node has to follow.
pub record Reassigns (msg : LinMessage) (s : LinSlave) : Type 0 where
  pub addressed : (msg.nad ≡ s.nad) ⊎ (msg.nad ≡ broadcast_nad)
  pub service : msg.sid ≡ assign_nad_sid
  pub complete : 5 ≤ length msg.payload
  pub selected :
      SelectsSlave
        (get_uint16 (byte_at msg.payload 0) (byte_at msg.payload 1))
        (get_uint16 (byte_at msg.payload 2) (byte_at msg.payload 3))
        s

read_keeps :
    (msg : LinMessage) (s : LinSlave)
    → SameIdentity s (handle_read_by_identifier msg s)
      × ((handle_read_by_identifier msg s).nad ≡ s.nad)
      × ((handle_read_by_identifier msg s).saved_nad ≡ s.saved_nad)
unfolding handle_read_by_identifier respond
read_keeps msg s = ground arith

-- A message changes the NAD only if it reassigns it, to the NAD that it names, and the saved NAD
-- only if it asks to save the configuration, to the current one. It never changes the identity.
pub handle_message_changes :
    (msg : LinMessage) (s : LinSlave)
    → SameIdentity s (handle_message msg s)
      × (((handle_message msg s).nad ≡ s.nad)
          ⊎ (Reassigns msg s × ((handle_message msg s).nad ≡ byte_at msg.payload 4)))
      × (((handle_message msg s).saved_nad ≡ s.saved_nad)
          ⊎ ((msg.sid ≡ save_configuration_sid) × ((handle_message msg s).saved_nad ≡ s.nad)))
unfolding handle_message respond
handle_message_changes msg s = ground (arith, read_keeps msg s)

pub handle_message-reassign :
    (msg : LinMessage) (s : LinSlave)
    → Reassigns msg s
    → handle_message msg s ≡ record s {
      nad = byte_at msg.payload 4;
      transport = (transmit s.nad (assign_nad_sid + 0x40) [] s.transport).0;
    }
unfolding handle_message respond
handle_message-reassign msg s r = ground arith

-- After a node was given another NAD, it answers its request with the old one, and ignores every
-- further message to the old one.
pub reassigned_ignores_old :
    (msg later : LinMessage) (s : LinSlave)
    → Reassigns msg s
    → byte_at msg.payload 4 ≢ s.nad
    → s.nad ≢ broadcast_nad
    → later.nad ≡ s.nad
    → (handle_message later (handle_message msg s) ≡ handle_message msg s)
      × ((handle_message msg s).transport
          ≡ (transmit s.nad (assign_nad_sid + 0x40) [] s.transport).0)
reassigned_ignores_old msg later s r other single old =
    rw (handle_message-reassign msg s r) (unfold handle_message respond in ground arith, refl)

Keeps : LinSlave → Type 0
Keeps s = IsValid s.transport

respond-Keeps :
    (sid : ℕ) (payload : List ℕ) (s : LinSlave) → Keeps s → Keeps (respond sid payload s)
unfolding respond Keeps
respond-Keeps sid payload s v = transmit-IsValid s.nad sid payload s.transport v

with_nad-Keeps : (nad : ℕ) (s : LinSlave) → Keeps s → Keeps (record s { nad = nad })
unfolding Keeps
with_nad-Keeps nad s v = v

answer_identifier-Keeps :
    (msg : LinMessage) (response : Option (List ℕ)) (s : LinSlave)
    → Keeps s
    → Keeps (answer_identifier msg response s)
unfolding transmit_negative_response
answer_identifier-Keeps msg none s v = respond-Keeps 0x7F _ s v
answer_identifier-Keeps msg (some response) s v = respond-Keeps _ response s v

handle_message-Keeps : (msg : LinMessage) (s : LinSlave) → Keeps s → Keeps (handle_message msg s)
unfolding handle_message
handle_message-Keeps msg s v = ground (
  arith,
  v,
  respond-Keeps 0x7F (msg.sid ∷ 0x13 ∷ []) s v,
  answer_identifier-Keeps msg (get_id_bytes (byte_at msg.payload 0) s) s v,
  respond-Keeps (positive_sid msg.sid) [] (record s { saved_nad = s.nad }) (unfold Keeps in v),
  with_nad-Keeps (byte_at msg.payload 4) (respond (positive_sid msg.sid) [] s)
      (respond-Keeps (positive_sid msg.sid) [] s v),
)

-- Handling a message keeps the state of the transport valid.
handle_message-IsValid :
    (msg : LinMessage) (s : LinSlave)
    → IsValid s.transport
    → IsValid (handle_message msg s).transport
unfolding Keeps
handle_message-IsValid msg s v = handle_message-Keeps msg s v
