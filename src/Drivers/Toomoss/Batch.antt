-- ===== src/Drivers/Toomoss/Batch.antt =====
-- What ReadEvent of driver/toomoss.go makes of the messages that the library has for it.
use linbuskit.Base.{
  ℕ, zero, suc, ◌≤◌, ◌≡◌, refl, sym, ◌∙◌, ap, subst, arith, List, [], ◌∷◌, ◌++◌, map, append_assoc,
  append-nil, none, some, ltb, length, length-append, take, take_all, Bool-cases, inl, inr, ok, ℤ,
  ==_refl,
}
use linbuskit.Lin.{LinEvent}
use linbuskit.Transport.State.{send_or_drop}
use linbuskit.Simulation.{event_queue}
use linbuskit.Simulation.Delivery.{event_queue-set}
use linbuskit.Drivers.Action.Preserves.{Preserves, Preserves-guard, preserves_rules}
use linbuskit.Drivers.Action.Repeat.{Ends, repeat}
use linbuskit.Drivers.Toomoss.Device.{
  LinExMsg, ToomossApi, Toomoss, Usb, Session, call, event_capacity, channel_error,
  validate_channel, enqueue_event,
}
use linbuskit.Drivers.Toomoss.Traffic.{
  Outcome, toomoss_event, lin_ex_slave_get_data, queue_messages, read_turn, read_event,
}

take-zero : {A : Type 0} (xs : List A) → take 0 xs ≡ []
take-zero [] = refl
take-zero (x ∷ xs) = refl

take-full : {A : Type 0} (n : ℕ) (xs ys : List A) → length xs ≡ n → take n (xs ++ ys) ≡ xs
take-full zero [] ys full = take-zero ys
take-full zero (x ∷ xs) ys full = absurd (omega arith)
take-full (suc n) [] ys full = absurd (omega arith)
take-full (suc n) (x ∷ xs) ys full = ap (λ zs. x ∷ zs) (take-full n xs ys (omega arith))

-- A queue that one event was put into, or that was full, and what would come after it.
take-send :
    {A : Type 0} (n : ℕ) (q : List A) (e : A) (es : List A)
    → length q ≤ n
    → take n (send_or_drop n q e ++ es) ≡ take n (q ++ e ∷ es)
take-send n q e es fits = elim (Bool-cases (ltb (length q) n)) [
  | inl room ↦ rw (room, append_assoc q (e ∷ []) es) refl
  | inr full ↦
      let filled : length q ≡ n = ground arith in
      rw (full, take-full n q es filled, take-full n q (e ∷ es) filled) refl
]

module _ {S : Type 0} (api : ToomossApi S) (channel : ℕ) where
  abbrev queue : Session S → List LinEvent
  queue s = event_queue channel s.device.event_chans

  abbrev event_at : Session S → LinExMsg → LinEvent
  event_at s m = toomoss_event m channel (api.now s.usb.library)

  queue-enqueue_event :
      (e : LinEvent) (s : Session S)
      → queue (enqueue_event channel e s) ≡ send_or_drop event_capacity (queue s) e
  unfolding enqueue_event
  queue-enqueue_event e s =
      rw
        (
          event_queue-set channel channel (send_or_drop event_capacity (queue s) e)
              s.device.event_chans,
          ==_refl channel,
        )
        refl

  length-send :
      (q : List LinEvent) (e : LinEvent)
      → length q ≤ event_capacity
      → length (send_or_drop event_capacity q e) ≤ event_capacity
  length-send q e h = ground (arith, length-append q (e ∷ []))

  queue_messages-take :
      (rest : List LinExMsg) (s : Session S)
      → length (queue s) ≤ event_capacity
      → queue (queue_messages api rest channel s)
        ≡ take event_capacity (queue s ++ map (event_at s) rest)
  unfolding queue_messages enqueue_event
  queue_messages-take [] s fits =
      rw (append-nil (queue s), take_all event_capacity (queue s) fits) refl
  queue_messages-take (m ∷ rest) s fits =
      let s' = enqueue_event channel (event_at s m) s in
      let queued = queue-enqueue_event (event_at s m) s in
      let fits' =
        subst (λ (q : List LinEvent). length q ≤ event_capacity) (sym queued)
          (length-send (queue s) (event_at s m) fits) in
      queue_messages-take rest s' fits'
      ∙ ap (λ (q : List LinEvent). take event_capacity (q ++ map (event_at s) rest)) queued
      ∙ take-send event_capacity (queue s) (event_at s m) (map (event_at s) rest) fits

  usb-queue_messages :
      (rest : List LinExMsg) (s : Session S) → (queue_messages api rest channel s).usb ≡ s.usb
  unfolding queue_messages enqueue_event
  usb-queue_messages [] s = refl
  usb-queue_messages (m ∷ rest) s = usb-queue_messages rest (enqueue_event channel (event_at s m) s)

  lin_ex_slave_get_data-device :
      (d : Toomoss)
      → Preserves (λ (s : Session S). s.device ≡ d) (lin_ex_slave_get_data api channel)
  unfolding lin_ex_slave_get_data validate_channel
  lin_ex_slave_get_data-device d =
      let checked : Preserves (λ (s : Session S). s.device ≡ d) (validate_channel channel) =
        record {
          after = λ s h.
              (Preserves-guard {P = λ (s : Session S). s.device ≡ d}
                  (channel_error channel s.device)).after
                s h;
        } in
      let called : Preserves (λ (s : Session S). s.device ≡ d) (call (api.slave_get_data channel)) =
        record { after = λ s h. h } in
      search preserves_rules depth 14

  -- The first message as the result, and the next ones in the queue.
  abbrev pub Batched : LinExMsg → List LinExMsg → Session S → Outcome → Session S → Type 0
  Batched m rest s' r s'' =
      (r ≡ ok (some (event_at s' m))) × (queue s'' ≡ take event_capacity (map (event_at s') rest))

  -- If the library has messages for a channel of an open driver with an empty queue, ReadEvent
  -- returns the first of them, whatever the timeout; the next ten are in the queue then, in their
  -- order, and what comes behind them is gone.
  pub read_event-Batched :
      (fuel : ℕ) (timeout : ℤ) (s s' : Session S) (m : LinExMsg) (rest : List LinExMsg)
      → channel_error channel s.device ≡ none
      → queue s ≡ []
      → lin_ex_slave_get_data api channel s ≡ (ok (m ∷ rest), s')
      → Ends (Batched m rest s') (read_event api (suc fuel) timeout channel s)
  unfolding read_event read_turn repeat validate_channel
  read_event-Batched fuel timeout s s' m rest known none_queued got =
      rw (known, none_queued, got)
        (
          ap (λ (u : Usb S). ok (some (toomoss_event m channel (api.now u.library))))
              (usb-queue_messages rest s'),
          queue_messages-take rest s' (rw empty (omega arith))
              ∙ ap (λ (q : List LinEvent). take event_capacity (q ++ map (event_at s') rest)) empty,
        )
    where
      kept : s'.device ≡ s.device
      kept = rw⁻¹ (ap (λ r. r.1) got) ((lin_ex_slave_get_data-device s.device).after s refl)

      empty : queue s' ≡ []
      empty = ap (λ (d : Toomoss). event_queue channel d.event_chans) kept ∙ none_queued
