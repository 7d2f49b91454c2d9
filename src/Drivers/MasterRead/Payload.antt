-- ===== src/Drivers/MasterRead/Payload.antt =====
-- Where the payload comes from that readMasterResponse of driver/common.go returns.
use linbuskit.Base.{
  ℕ, zero, suc, ◌+◌, ◌-◌, ◌≤◌, ◌≡◌, refl, sym, ◌∙◌, List, Option, none, some, true, false, ltb, leb,
  Result, ok, err, Bool-cases, inl, inr, ltb→le, ◌⊎◌,
}
use linbuskit.Lin.{LinEvent, DriverError}
use linbuskit.Drivers.MasterRead.{
  Reader, ReadError, no_slave_response, invalid_frame, device_error, Turn, again, over, is_response,
  turn_of, by_turn, read_until, after_request, read_master_response, read_until-late,
  read_until-early,
}

-- The states before the reads of the loop, from `s` on: each read before came in time, and to
-- nothing that ends the loop.
pub data Waits {S : Type 0} (r : Reader S) (frame_id channel deadline : ℕ) (s : S)
    : S → Type 0 where
  first_read : Waits r frame_id channel deadline s s
  next_read :
      {t : S}
      → Waits r frame_id channel deadline s t
      → leb deadline (r.now t) ≡ false
      → turn_of frame_id channel (r.read (deadline - r.now t) channel t).0 ≡ again
      → Waits r frame_id channel deadline s (r.read (deadline - r.now t) channel t).1

-- The last read of the loop from `s` on, which came in time and gave the frame.
pub record Given {S : Type 0} (r : Reader S) (frame_id channel deadline : ℕ) (s end : S)
    (payload : List ℕ) : Type 0 where
  pub state : S
  pub event : LinEvent
  pub waited : Waits r frame_id channel deadline s state
  pub in_time : leb deadline (r.now state) ≡ false
  pub was_read : r.read (deadline - r.now state) channel state ≡ (ok (some event), end)
  pub matches : is_response frame_id channel event ≡ true
  pub has_payload : event.event_payload ≡ payload

turn_of-ok :
    (frame_id channel : ℕ) (x : Result DriverError (Option LinEvent)) (payload : List ℕ)
    → turn_of frame_id channel x ≡ over (ok payload)
    → (e : LinEvent) × (x ≡ ok (some e))
      × (is_response frame_id channel e ≡ true)
      × (e.event_payload ≡ payload)
turn_of-ok frame_id channel (err e) payload h = absurd cc
turn_of-ok frame_id channel (ok none) payload h = absurd cc
turn_of-ok frame_id channel (ok (some e)) payload h =
    elim (Bool-cases (is_response frame_id channel e)) [
      | inr other ↦ absurd cc
      | inl fits ↦ (e, refl, fits, cc)
    ]

by_turn-ok :
    {S : Type 0} (v : Turn) (rest : Option (Result ReadError (List ℕ) × S)) (s end : S)
    (payload : List ℕ)
    → by_turn v rest s ≡ some (ok payload, end)
    → ((v ≡ over (ok payload)) × (s ≡ end)) ⊎ ((v ≡ again) × (rest ≡ some (ok payload, end)))
by_turn-ok again rest s end payload h = inr (refl, h)
by_turn-ok (over result) rest s end payload h = inl (cc, cc)

err_not_ok :
    {S C : Type 0} (e : ReadError) (s end : S) (payload : List ℕ)
    → ◌≡◌ {A = Option (Result ReadError (List ℕ) × S)} (some (err e, s)) (some (ok payload, end))
    → C
err_not_ok e s end payload h = absurd cc

read_until-Given :
    {S : Type 0} (r : Reader S) (frame_id channel deadline fuel : ℕ) (start s end : S)
    (payload : List ℕ)
    → Waits r frame_id channel deadline start s
    → read_until r frame_id channel deadline fuel s ≡ some (ok payload, end)
    → Given r frame_id channel deadline start end payload
unfolding read_until
read_until-Given r frame_id channel deadline zero start s end payload w h = cc
read_until-Given r frame_id channel deadline (suc fuel) start s end payload w h =
    let (x, s') = r.read (deadline - r.now s) channel s in
    elim (Bool-cases (leb deadline (r.now s))) [
      | inl late ↦
          err_not_ok no_slave_response s end payload
            (sym (read_until-late r frame_id channel deadline fuel s late) ∙ h)
      | inr early ↦
          elim (by_turn-ok (turn_of frame_id channel x) _ s' end payload
            (sym (read_until-early r frame_id channel deadline fuel s early) ∙ h)) [
              | inl (ended, same) ↦
                  let (e, gave, fits, bytes) = turn_of-ok frame_id channel x payload ended in
                  record {
                    state = s;
                    event = e;
                    waited = w;
                    in_time = early;
                    was_read = cc;
                    matches = fits;
                    has_payload = bytes;
                  }
              | inr (went_on, rest) ↦
                  read_until-Given r frame_id channel deadline fuel start s' end payload
                    (next_read w early went_on) rest
            ]
    ]

-- A payload that readMasterResponse returns is that of the event which the last read of its loop gave,
-- before the deadline: one received on the channel with the frame ID, which is at most 0x3F. The loop
-- began after the request, which succeeded, and the reads before the last came to no such event.
pub read_master_response-Given :
    {S : Type 0} (r : Reader S) (fuel frame_id channel timeout : ℕ) (s end : S) (payload : List ℕ)
    → read_master_response r fuel frame_id channel timeout s ≡ some (ok payload, end)
    → let (e, s') = r.request frame_id channel s in
      (frame_id ≤ 0x3F) × (e ≡ none) × Given r frame_id channel (r.now s' + timeout) s' end payload
unfolding read_master_response
read_master_response-Given r fuel frame_id channel timeout s end payload h =
    elim (Bool-cases (ltb 0x3F frame_id)) [
      | inl high ↦
          err_not_ok (invalid_frame frame_id) s end payload
            (sym (rw (high, read_master_response)) ∙ h)
      | inr fits ↦
          let (sent, given) =
            go (r.request frame_id channel s) (sym (rw (fits, read_master_response)) ∙ h) in
          (ltb→le 0x3F frame_id fits, sent, given)
    ]
  where
    go :
        (q : Option DriverError × _)
        → after_request r fuel frame_id channel timeout q ≡ some (ok payload, end)
        → (q.0 ≡ none) × Given r frame_id channel (r.now q.1 + timeout) q.1 end payload
    go (some e, s') h' = err_not_ok (device_error e) s' end payload h'
    go (none, s') h' = (
      refl,
      read_until-Given r frame_id channel (r.now s' + timeout) fuel s' s' end payload first_read h',
    )
