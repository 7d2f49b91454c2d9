-- ===== src/Drivers/Queues.antt =====
-- The event queues of the hardware drivers, one for each channel.
use linbuskit.Base.{
  ℕ, ◌≤◌, ◌≡◌, subst, arith, List, [], ◌∷◌, Option, none, some, ltb, ◌==◌, ==→eq, length, All,
  All-append, Bool-cases, inl, inr, length-append, Result, ok, err,
}
use linbuskit.Lin.{LinEvent}
use linbuskit.Transport.State.{send_or_drop}
use linbuskit.Simulation.{EventQueues, event_queue, set_queue}
use linbuskit.Simulation.Delivery.{event_queue-set}

-- A frame that a reader of the channel may get.
pub record IsFrame (channel : ℕ) (e : LinEvent) : Type 0 where
  pub same_channel : e.channel ≡ channel
  pub frame_id : e.event_id ≤ 0x3F
  pub payload : length e.event_payload ≤ 8

-- Every queue holds frames of its channel, and no more than fit.
pub record HoldsFrames (size : ℕ) (qs : EventQueues) : Type 0 where
  pub all_frames : (c : ℕ) → All (IsFrame c) (event_queue c qs)
  pub all_fit : (c : ℕ) → length (event_queue c qs) ≤ size

-- What a read may return for a channel.
abbrev pub GivesFrame : {E : Type 0} → ℕ → Result E (Option LinEvent) → Type 0
GivesFrame channel (err e) = Unit {0}
GivesFrame channel (ok none) = Unit {0}
GivesFrame channel (ok (some e)) = IsFrame channel e

pub HoldsFrames-none : (size : ℕ) → HoldsFrames size []
unfolding event_queue
HoldsFrames-none size = record { all_frames = λ c. tt; all_fit = λ c. omega arith }

pub HoldsFrames-set :
    (size channel : ℕ) (q : List LinEvent) (qs : EventQueues)
    → All (IsFrame channel) q
    → length q ≤ size
    → HoldsFrames size qs
    → HoldsFrames size (set_queue channel q qs)
HoldsFrames-set size channel q qs hq hl h = record {
  all_frames = λ c. elim (Bool-cases (channel == c)) [
    | inl same ↦ rw (event_queue-set channel c q qs, same) (rw⁻¹ (==→eq channel c same) hq)
    | inr other ↦ rw (event_queue-set channel c q qs, other) (h.all_frames c)
  ];
  all_fit = λ c. elim (Bool-cases (channel == c)) [
    | inl same ↦ rw (event_queue-set channel c q qs, same) hl
    | inr other ↦ rw (event_queue-set channel c q qs, other) (h.all_fit c)
  ];
}

All-send :
    (size channel : ℕ) (q : List LinEvent) (e : LinEvent)
    → All (IsFrame channel) q
    → IsFrame channel e
    → All (IsFrame channel) (send_or_drop size q e)
All-send size channel q e hq he = elim (Bool-cases (ltb (length q) size)) [
  | inl room ↦ rw (room, send_or_drop) (All-append (IsFrame channel) q (e ∷ []) hq (he, tt))
  | inr full ↦ rw (full, send_or_drop) hq
]

length-send :
    (size : ℕ) (q : List LinEvent) (e : LinEvent)
    → length q ≤ size
    → length (send_or_drop size q e) ≤ size
length-send size q e h = ground (arith, length-append q (e ∷ []))

-- A frame that is put into its channel's queue, or dropped where that is full.
pub HoldsFrames-send :
    (size channel : ℕ) (e : LinEvent) (qs : EventQueues)
    → IsFrame channel e
    → HoldsFrames size qs
    → HoldsFrames size (set_queue channel (send_or_drop size (event_queue channel qs) e) qs)
HoldsFrames-send size channel e qs he h =
    HoldsFrames-set size channel (send_or_drop size (event_queue channel qs) e) qs
      (All-send size channel (event_queue channel qs) e (h.all_frames channel) he)
      (length-send size (event_queue channel qs) e (h.all_fit channel)) h

-- What is left when the first frame has been taken.
pub HoldsFrames-take :
    (size channel : ℕ) (e : LinEvent) (rest : List LinEvent) (qs : EventQueues)
    → event_queue channel qs ≡ e ∷ rest
    → HoldsFrames size qs
    → IsFrame channel e × HoldsFrames size (set_queue channel rest qs)
HoldsFrames-take size channel e rest qs same h =
    let frames = subst (All (IsFrame channel)) same (h.all_frames channel) in
    let fit = subst (λ (q : List LinEvent). length q ≤ size) same (h.all_fit channel) in
    (frames.0, HoldsFrames-set size channel rest qs frames.1 (omega arith) h)
