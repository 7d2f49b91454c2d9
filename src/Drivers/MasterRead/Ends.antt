-- ===== src/Drivers/MasterRead/Ends.antt =====
-- readMasterResponse of driver/common.go ends.
use linbuskit.Base.{
  ℕ, zero, suc, ◌+◌, ◌-◌, ◌≤◌, ◌<◌, ◌≡◌, refl, arith, List, Option, none, some, true, ltb, leb,
  Result, ok, err, is_some, Bool-cases, inl, inr, leb→lt,
}
use linbuskit.Lin.{LinEvent, DriverError}
use linbuskit.Drivers.MasterRead.{
  Reader, ReadError, Turn, again, over, turn_of, by_turn, read_until, after_request,
  read_master_response, read_until-late, read_until-early,
}

-- What the reads rely on: the device has finitely many events, and a read that gives one takes it; the
-- clock does not go back, and moves on in a read that has time left and gives nothing.
pub record IsDrained {S : Type 0} (r : Reader S) : Type 0 where
  pub pending : S → ℕ
  pub event_taken :
      (time_left channel : ℕ) (s : S) (e : LinEvent)
      → (r.read time_left channel s).0 ≡ ok (some e)
      → pending (r.read time_left channel s).1 < pending s
  pub pending_keeps :
      (time_left channel : ℕ) (s : S) → pending (r.read time_left channel s).1 ≤ pending s
  pub clock_keeps : (time_left channel : ℕ) (s : S) → r.now s ≤ r.now (r.read time_left channel s).1
  pub waiting_takes_time :
      (time_left channel : ℕ) (s : S)
      → 0 < time_left
      → (r.read time_left channel s).0 ≡ ok none
      → r.now s < r.now (r.read time_left channel s).1

by_turn-ends :
    {S : Type 0} (v : Turn) (rest : Option (Result ReadError (List ℕ) × S)) (s : S)
    → is_some rest ≡ true
    → is_some (by_turn v rest s) ≡ true
by_turn-ends again rest s h = h
by_turn-ends (over result) rest s h = refl

read_until-ends :
    {S : Type 0} (r : Reader S) (d : IsDrained r) (frame_id channel deadline fuel : ℕ) (s : S)
    → d.pending s + (deadline - r.now s) < fuel
    → is_some (read_until r frame_id channel deadline fuel s) ≡ true
unfolding read_until
read_until-ends r d frame_id channel deadline zero s h = absurd (omega arith)
read_until-ends {S} r d frame_id channel deadline (suc fuel) s h =
    elim (Bool-cases (leb deadline (r.now s))) [
      | inl late ↦ rw (read_until-late r frame_id channel deadline fuel s late)
      | inr early ↦
          let before = leb→lt deadline (r.now s) early in
          let clock = d.clock_keeps (deadline - r.now s) channel s in
          let kept = d.pending_keeps (deadline - r.now s) channel s in
          rw (read_until-early r frame_id channel deadline fuel s early) (
            go before clock kept (r.read (deadline - r.now s) channel s).0 refl λ less.
              read_until-ends r d frame_id channel deadline fuel
                (r.read (deadline - r.now s) channel s).1 less)
    ]
  where
    go :
        r.now s < deadline
        → r.now s ≤ r.now (r.read (deadline - r.now s) channel s).1
        → d.pending (r.read (deadline - r.now s) channel s).1 ≤ d.pending s
        → (x : Result DriverError (Option LinEvent)) → (r.read (deadline - r.now s) channel s).0 ≡ x
        → (d.pending (r.read (deadline - r.now s) channel s).1
                + (deadline - r.now (r.read (deadline - r.now s) channel s).1)
              < fuel
            → is_some (
                read_until r frame_id channel deadline fuel
                  (r.read (deadline - r.now s) channel s).1)
              ≡ true)
        → is_some (
            by_turn
              (turn_of frame_id channel x)
              (read_until r frame_id channel deadline fuel
                (r.read (deadline - r.now s) channel s).1)
              (r.read (deadline - r.now s) channel s).1)
          ≡ true
    go before clock kept (err e) same rest = refl
    go before clock kept (ok none) same rest =
        let moved = d.waiting_takes_time (deadline - r.now s) channel s (omega arith) same in
        rest (omega arith)
    go before clock kept (ok (some e)) same rest =
        let taken = d.event_taken (deadline - r.now s) channel s e same in
        by_turn-ends (turn_of frame_id channel (ok (some e))) _ _ (rest (omega arith))

-- readMasterResponse ends, on a device with finitely many events and a clock that moves on while a
-- read waits: one more turn than there are events after the request and nanoseconds in the timeout is
-- enough.
pub read_master_response_ends :
    {S : Type 0} (r : Reader S) (d : IsDrained r) (frame_id channel timeout fuel : ℕ) (s : S)
    → d.pending (r.request frame_id channel s).1 + timeout < fuel
    → is_some (read_master_response r fuel frame_id channel timeout s) ≡ true
unfolding read_master_response
read_master_response_ends r d frame_id channel timeout fuel s h =
    elim (Bool-cases (ltb 0x3F frame_id)) [
      | inl high ↦ rw (high, is_some)
      | inr fits ↦ rw (fits, is_some) (go (r.request frame_id channel s) h)
    ]
  where
    go :
        (q : Option DriverError × _)
        → d.pending q.1 + timeout < fuel
        → is_some (after_request r fuel frame_id channel timeout q) ≡ true
    go (some e, s') less = refl
    go (none, s') less =
        read_until-ends r d frame_id channel (r.now s' + timeout) fuel s' (omega arith)
