-- ===== src/Transport/Queues/Laws.antt =====
-- `Transmit` takes a message whole or not at all, and the state of the queues stays within bounds.
use linbuskit.Base.{
  ℕ, ◌-◌, ◌≤◌, ◌<◌, ◌≡◌, ◌⊎◌, inl, inr, refl, arith, List, [], ◌∷◌, ◌++◌, none, some, true, false,
  not, ◌||◌, length, length-append, ok,
}
use linbuskit.Lin.{LinEvent}
use linbuskit.Transport.Config.{max_transport_data_length, default_tx_queue_size}
use linbuskit.Transport.State.{
  Transport, LinMessage, Error, transport_closed, rx_queue_full, tx_queue_full, message_too_long,
  tx_capacity, rx_capacity, error_capacity,
}
use linbuskit.Transport.Frames.{build_frames}
use linbuskit.Transport.Frames.Shape.{frame_count, build_frames_shape, length-build_frames}
use linbuskit.Transport.Assembly.Invariant.{IsWellFormed}
use linbuskit.Transport.Queues.{transmit, enqueue_frames, report_error, deliver_message, receive}

pub record IsValid (t : Transport) : Type 0 where
  pub tx_fits : length t.tx_queue ≤ tx_capacity t
  pub rx_fits : length t.rx_queue ≤ rx_capacity t
  pub errors_fit : length t.errors ≤ error_capacity
  pub receive_errors_fit : length t.receive_errors ≤ error_capacity
  pub master_schedules_nothing : t.is_slave ≡ false → t.scheduled_tx_event ≡ none
  pub assembly : IsWellFormed t.assembly

-- The transport after it took the frames of a message.
abbrev pub queued : List LinEvent → Transport → Transport
queued es t = record t {
  tx_queue = t.tx_queue ++ es;
  awaiting_slave_response = not t.is_slave || t.awaiting_slave_response;
  wake = true;
}

-- Why `Transmit` refuses a message, in the order in which it looks.
pub data Refusal (t : Transport) (payload : List ℕ) : Error → Type 0 where
  too_long :
      {e : Error}
      → max_transport_data_length < length payload
      → e ≡ message_too_long (length payload)
      → Refusal t payload e
  is_closed :
      {e : Error}
      → length payload ≤ max_transport_data_length
      → t.closed ≡ true
      → e ≡ transport_closed
      → Refusal t payload e
  no_room :
      {e : Error}
      → length payload ≤ max_transport_data_length
      → t.closed ≡ false
      → tx_capacity t - length t.tx_queue < frame_count (length payload)
      → e ≡ tx_queue_full (frame_count (length payload)) (tx_capacity t - length t.tx_queue)
      → Refusal t payload e

enqueue_cases :
    (n : ℕ) (es : List LinEvent) (t : Transport)
    → length es ≡ n
    → ((t.closed ≡ false)
        × (n ≤ tx_capacity t - length t.tx_queue)
        × (enqueue_frames es t ≡ (queued es t, none)))
      ⊎ ((t.closed ≡ true) × (enqueue_frames es t ≡ (t, some transport_closed)))
      ⊎ ((t.closed ≡ false)
          × (tx_capacity t - length t.tx_queue < n)
          × (enqueue_frames es t ≡ (t, some (tx_queue_full n (tx_capacity t - length t.tx_queue)))))
enqueue_cases n es t h = ground arith

-- `Transmit` on an open transport with room for all frames of a message of at most 4094 bytes of
-- data appends them to the queue in order, wakes the transport and, for a master, begins to
-- await the response. In every other case it changes nothing and returns the error that says why.
pub transmit_atomic :
    (nad sid : ℕ) (payload : List ℕ) (t : Transport)
    → ((es : List LinEvent) × (build_frames t.is_slave t.channel nad sid payload ≡ ok es)
        × (t.closed ≡ false)
        × (frame_count (length payload) ≤ tx_capacity t - length t.tx_queue)
        × (transmit nad sid payload t ≡ (queued es t, none)))
      ⊎ ((e : Error) × Refusal t payload e × (transmit nad sid payload t ≡ (t, some e)))
unfolding transmit
transmit_atomic nad sid payload t = elim (build_frames_shape t.is_slave t.channel nad sid payload) [
  | inl (fits, es, built, frames, count, small) ↦ elim (enqueue_cases _ es t count) [
    | inl (opened, room, e) ↦ inl (es, built, opened, room, rw (built, transmit) e)
    | inr (inl (shut, e)) ↦
        inr (transport_closed, Refusal.is_closed fits shut refl, rw (built, transmit) e)
    | inr (inr (opened, small, e)) ↦
        inr (_, Refusal.no_room fits opened small refl, rw (built, transmit) e)
  ]
  | inr (long, refused) ↦
      inr (message_too_long _, Refusal.too_long long refl, rw (refused, transmit))
]

-- A default transport whose queue is empty takes every message of at most 4094 bytes of data.
transmit_default :
    (nad sid : ℕ) (payload : List ℕ) (t : Transport)
    → t.closed ≡ false
    → t.tx_queue ≡ []
    → tx_capacity t ≡ default_tx_queue_size
    → length payload ≤ max_transport_data_length
    → (es : List LinEvent) × (build_frames t.is_slave t.channel nad sid payload ≡ ok es)
      × (transmit nad sid payload t ≡ (queued es t, none))
transmit_default nad sid payload t opened empty cap fits =
    elim (transmit_atomic nad sid payload t) [
      | inl (es, built, _, _, taken) ↦ (es, built, taken)
      | inr (e, why, _) ↦ absurd (refuse why)
    ]
  where
    refuse : {e : Error} → Refusal t payload e → ⊥
    refuse (Refusal.too_long long _) = omega arith
    refuse (Refusal.is_closed _ shut _) = cc
    refuse (Refusal.no_room _ _ full _) = ground arith

pub transmit-IsValid :
    (nad sid : ℕ) (payload : List ℕ) (t : Transport)
    → IsValid t
    → IsValid (transmit nad sid payload t).0
transmit-IsValid nad sid payload t v = elim (transmit_atomic nad sid payload t) [
  | inl (es, built, _, room, taken) ↦ rw taken (
      ground (
        arith,
        length-append t.tx_queue es,
        length-build_frames t.is_slave t.channel nad sid payload built,
      ))
  | inr (e, why, same) ↦ rw same v
]

pub report_error-IsValid : (e : Error) (t : Transport) → IsValid t → IsValid (report_error e t)
unfolding report_error
report_error-IsValid e t v =
    ground (arith, length-append t.errors (e ∷ []), length-append t.receive_errors (e ∷ []))

pub deliver_message-IsValid :
    (m : LinMessage) (t : Transport) → IsValid t → IsValid (deliver_message m t)
unfolding deliver_message
deliver_message-IsValid m t v = ground (
  arith,
  length-append t.rx_queue (m ∷ []),
  length-append t.errors (rx_queue_full ∷ []),
  length-append t.receive_errors (rx_queue_full ∷ []),
)

pub receive-IsValid : (t : Transport) → IsValid t → IsValid (receive t).0
unfolding receive
receive-IsValid t v = ground arith
