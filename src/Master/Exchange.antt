-- ===== src/Master/Exchange.antt =====
-- A request and its response between a master and a slave, through the frames of both transports.
use linbuskit.Base.{
  ℕ, ◌+◌, ◌-◌, ◌≤◌, ◌<◌, ◌≡◌, ◌⊎◌, inl, inr, refl, ap, ◌∙◌, arith, List, [], ◌∷◌, ◌++◌, Option,
  none, some, Bool, true, false, length, ok, IsUint16, get_uint16-bytes, low_byte, high_byte,
}
use linbuskit.Lin.{LinEvent}
use linbuskit.Transport.Config.{broadcast_nad, read_by_identifier_sid, max_transport_data_length}
use linbuskit.Transport.State.{Transport, LinMessage, Error, reset_state, rx_capacity, tx_capacity}
use linbuskit.Transport.Frames.{build_frames}
use linbuskit.Transport.Frames.Shape.{frame_count}
use linbuskit.Transport.Queues.{transmit, receive}
use linbuskit.Transport.Queues.Laws.{queued, Refusal, transmit_atomic}
use linbuskit.Transport.Exchange.{receive_events, receive_events-build_frames}
use linbuskit.Slave.{LinSlave, handle_message, handle_received, respond, get_id_bytes}
use linbuskit.Slave.Laws.{SelectsSlave}
use linbuskit.Master.{
  Arrival, message, identifier_payload, wait_for_response, get_slave_product_identifier,
  parse_product_identifier,
}

-- The slave receives the frames of a request and handles the message.
unfoldable pub serve : (ℕ → ℕ) → List LinEvent → LinSlave → LinSlave
serve clock request s =
    let t = receive_events clock request s.transport in handle_received (receive t) s

-- A transport in a role that is open, holds no message, and has room for a message and for `n`
-- frames.
pub record IsReady (is_slave : Bool) (n : ℕ) (t : Transport) : Type 0 where
  pub role : t.is_slave ≡ is_slave
  pub opened : t.closed ≡ false
  pub no_message : t.rx_queue ≡ []
  pub room : 0 < rx_capacity t
  pub tx_room : n ≤ tx_capacity t - length t.tx_queue

-- The transport of a slave that took its message.
abbrev at_rest : Transport → Transport
at_rest t = record t { assembly = reset_state }

serve_lem :
    (clock : ℕ → ℕ) (channel nad sid n : ℕ) (payload : List ℕ) (request : List LinEvent)
    → (s : LinSlave) → IsReady true n s.transport
    → build_frames false channel nad sid payload ≡ ok request
    → serve clock request s
      ≡ handle_message
          (record { nad = nad; sid = sid; payload = payload })
          (record s { transport = at_rest s.transport })
unfolding serve receive
serve_lem clock channel nad sid n payload request s ready built =
    let got =
      receive_events-build_frames clock channel nad sid payload s.transport request
        (rw ready.role built) (rw ready.no_message ready.room) in
    rw (got, ready.no_message)

transmit_ready :
    (is_slave : Bool) (n nad sid : ℕ) (payload : List ℕ) (t : Transport)
    → IsReady is_slave n t
    → length payload ≤ max_transport_data_length
    → frame_count (length payload) ≤ n
    → (es : List LinEvent) × (build_frames is_slave t.channel nad sid payload ≡ ok es)
      × (transmit nad sid payload t ≡ (queued es t, none))
transmit_ready is_slave n nad sid payload t ready fits few =
    elim (transmit_atomic nad sid payload t) [
      | inl (es, built, _, _, taken) ↦ (es, rw ready.role at built, taken)
      | inr (e, why, _) ↦ absurd (refuse why)
    ]
  where
    refuse : {e : Error} → Refusal t payload e → ⊥
    refuse (Refusal.too_long long _) = omega arith
    refuse (Refusal.is_closed _ shut _) = cc (ready.opened)
    refuse (Refusal.no_room _ _ full _) = omega (arith, ready.tx_room)

-- The slave answers a request for an identifier that it has.
handle_message-read :
    (nad identifier supplier function : ℕ) (bytes : List ℕ) (s : LinSlave)
    → (nad ≡ s.nad) ⊎ (nad ≡ broadcast_nad)
    → IsUint16 supplier
    → IsUint16 function
    → SelectsSlave supplier function s
    → get_id_bytes identifier s ≡ some bytes
    → handle_message
        (record {
          nad = nad;
          sid = read_by_identifier_sid;
          payload = identifier_payload identifier supplier function;
        })
        s
      ≡ respond (read_by_identifier_sid + 0x40) bytes s
unfolding handle_message
handle_message-read nad identifier supplier function bytes s to us uf selects id =
    ground (arith, get_uint16-bytes supplier us, get_uint16-bytes function uf)

respond_tx :
    (sid : ℕ) (payload : List ℕ) (s : LinSlave)
    → (respond sid payload s).transport ≡ (transmit s.nad sid payload s.transport).0
unfolding respond
respond_tx sid payload s = refl

-- The master after it queued the request.
abbrev pub asking : ℕ → ℕ → ℕ → ℕ → Transport → Transport
asking nad identifier supplier function m =
    (transmit nad read_by_identifier_sid (identifier_payload identifier supplier function) m).0

-- One exchange: what the master queues, what the slave answers, and what the master then takes.
pub record Exchange (clock clock' : ℕ → ℕ) (nad identifier supplier function : ℕ) (bytes : List ℕ)
    (m : Transport) (s : LinSlave) : Type 0 where
  pub request : List LinEvent
  pub reply : List LinEvent
  pub request_queued : (asking nad identifier supplier function m).tx_queue ≡ m.tx_queue ++ request
  pub reply_queued : (serve clock request s).transport.tx_queue ≡ s.transport.tx_queue ++ reply
  pub reply_received :
      (receive_events clock' reply (asking nad identifier supplier function m)).rx_queue
      ≡ record { nad = s.nad; sid = read_by_identifier_sid + 0x40; payload = bytes } ∷ []

-- A master that asks for an identifier, of one node or of all, and a slave that the request selects
-- and that has the identifier: the frames of the request bring it to the slave, the slave queues
-- frames for its answer, and these bring the master one message with the identifier's bytes.
pub read_by_identifier-Exchange :
    (clock clock' : ℕ → ℕ) (nad identifier supplier function : ℕ) (bytes : List ℕ)
    → (m : Transport) (s : LinSlave) → IsReady false 1 m
    → IsReady true (frame_count (length bytes)) s.transport
    → (nad ≡ s.nad) ⊎ (nad ≡ broadcast_nad)
    → IsUint16 supplier
    → IsUint16 function
    → SelectsSlave supplier function s
    → get_id_bytes identifier s ≡ some bytes
    → length bytes ≤ max_transport_data_length
    → Exchange clock clock' nad identifier supplier function bytes m s
unfolding get_id_bytes
read_by_identifier-Exchange clock clock' nad identifier supplier function bytes m s mr sr to us uf
      selects id fits =
    let asked = identifier_payload identifier supplier function in
    let answered = read_by_identifier_sid + 0x40 in
    let (request, asks, sent) =
      transmit_ready false 1 nad read_by_identifier_sid asked m mr (omega arith) (omega arith) in
    let s1 = record s { transport = at_rest s.transport } in
    let sr1 : IsReady true (frame_count (length bytes)) s1.transport = record {
      role = sr.role;
      opened = sr.opened;
      no_message = sr.no_message;
      room = sr.room;
      tx_room = sr.tx_room;
    } in
    let (reply, answers, replied) =
      transmit_ready true (frame_count (length bytes)) s.nad answered bytes s1.transport sr1 fits
        (omega arith) in
    let served : serve clock request s ≡ respond answered bytes s1 =
      serve_lem clock m.channel nad read_by_identifier_sid (frame_count (length bytes)) asked
        request s sr asks
      ∙ handle_message-read nad identifier supplier function bytes s1 to us uf selects id in
    record {
      request = request;
      reply = reply;
      request_queued = ap (λ (r : Transport × Option Error). r.0.tx_queue) sent;
      reply_queued =
          ap (λ (x : LinSlave). x.transport.tx_queue) served
          ∙ ap (λ (x : Transport). x.tx_queue) (respond_tx answered bytes s1)
          ∙ ap (λ (r : Transport × Option Error). r.0.tx_queue) replied;
      reply_received =
          ap (λ (r : Transport × Option Error). (receive_events clock' reply r.0).rx_queue) sent
          ∙ ap (λ (x : Transport). x.rx_queue)
              (receive_events-build_frames clock' s.transport.channel s.nad answered bytes
                (queued request m) reply (rw mr.role answers) (rw mr.no_message mr.room))
          ∙ rw mr.no_message;
    }

-- The messages of a queue as they arrive at a waiting master.
abbrev pub arrivals : List LinMessage → List Arrival
arrivals [] = []
arrivals (msg ∷ rest) = message msg ∷ arrivals rest

abbrev pub product_bytes : LinSlave → List ℕ
product_bytes s =
    low_byte s.supplier_id
    ∷ high_byte s.supplier_id
    ∷ low_byte s.function_id
    ∷ high_byte s.function_id
    ∷ s.variant_id
    ∷ []

consider-answer :
    (nad from sid : ℕ) (payload : List ℕ)
    → (nad ≡ from) ⊎ (nad ≡ broadcast_nad)
    → wait_for_response sid nad (message (record { nad = from; sid = sid; payload = payload }) ∷ [])
      ≡ some (ok (record { nad = from; sid = sid; payload = payload }))
unfolding wait_for_response
consider-answer nad from sid payload to = ground arith

parse_product-bytes :
    (s : LinSlave)
    → IsUint16 s.supplier_id
    → IsUint16 s.function_id
    → parse_product_identifier (s.nad, product_bytes s)
      ≡ ok (s.nad, s.supplier_id, s.function_id, s.variant_id)
unfolding parse_product_identifier
parse_product-bytes s us uf =
    ground (arith, get_uint16-bytes s.supplier_id us, get_uint16-bytes s.function_id uf)

-- A master that asks a slave for its product identifier, through the frames of both, learns the
-- slave's NAD, supplier, function and variant, also where it asked all nodes or any supplier.
pub product_identifier-Exchange :
    (clock clock' : ℕ → ℕ) (nad supplier function : ℕ) (m : Transport) (s : LinSlave)
    → IsReady false 1 m
    → IsReady true 1 s.transport
    → (nad ≡ s.nad) ⊎ (nad ≡ broadcast_nad)
    → IsUint16 supplier
    → IsUint16 function
    → IsUint16 s.supplier_id
    → IsUint16 s.function_id
    → SelectsSlave supplier function s
    → (x : Exchange clock clock' nad 0 supplier function (product_bytes s) m s)
      × ((get_slave_product_identifier supplier function nad
            (arrivals (receive_events clock' x.reply (asking nad 0 supplier function m)).rx_queue)
            m).1
          ≡ some (ok (s.nad, s.supplier_id, s.function_id, s.variant_id)))
unfolding get_slave_product_identifier
product_identifier-Exchange clock clock' nad supplier function m s mr sr to us uf su sf selects =
    let x =
      read_by_identifier-Exchange clock clock' nad 0 supplier function (product_bytes s) m s mr sr
        to us uf selects (unfold get_id_bytes in refl) (omega arith) in
    let (_, _, sent) =
      transmit_ready false 1 nad read_by_identifier_sid (identifier_payload 0 supplier function) m
        mr (omega arith) (omega arith) in
    (
      x,
      rw (x.reply_received, sent, consider-answer nad s.nad 0xF2 (product_bytes s) to)
          (ap some (parse_product-bytes s su sf)),
    )
