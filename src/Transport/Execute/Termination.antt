-- ===== src/Transport/Execute/Termination.antt =====
-- `execute` ends over every driver that has finitely many events to give.
use linbuskit.Base.{
  ℕ, zero, suc, ◌≤◌, ◌<◌, ◌≡◌, refl, arith, Option, none, some, Bool, Result, ok, err, ℤ,
  Bool-cases, inl, inr, is_some, true, ◌==◌, List, [], ◌∷◌,
}
use linbuskit.Lin.{LinEvent, World, DriverError}
use linbuskit.Transport.State.{Transport, Error}
use linbuskit.Transport.Execute.{
  read_loop, on_answer, finish, execute, receive_from_driver, confirm_scheduled, schedule_next,
  is_master_idle, check_multi_frame_timeout, timeout_of,
}

-- A count of the events that wait in the driver: every event read is one less, and scheduling a
-- response brings none.
pub record Drains {S : Type 0} (w : World S) : Type 0 where
  pub waiting : S → ℕ
  pub read_takes :
      (timeout : ℤ) (channel : ℕ) (s : S) (event : LinEvent)
      → (w.driver.read_event timeout channel s).0 ≡ ok (some event)
      → waiting (w.driver.read_event timeout channel s).1 < waiting s
  pub schedule_keeps :
      (event : LinEvent) (channel : ℕ) (s : S)
      → waiting (w.driver.schedule_slave_response event channel s).1 ≤ waiting s

module _ {S : Type 0} (w : World S) (d : Drains w) where
  schedule_next-le :
      (q : List LinEvent) (t : Transport) (s : S)
      → d.waiting (schedule_next w q t s).1 ≤ d.waiting s
  schedule_next-le [] t s = omega arith
  schedule_next-le (next ∷ rest) t s = d.schedule_keeps next t.channel s

  confirm_scheduled-le :
      (o : Option LinEvent) (event : LinEvent) (t : Transport) (s : S)
      → d.waiting (confirm_scheduled w o event t s).1 ≤ d.waiting s
  confirm_scheduled-le none event t s = omega arith
  confirm_scheduled-le (some e) event t s = elim (Bool-cases (e.event_id == event.event_id)) [
    | inl same ↦ rw same (schedule_next-le t.tx_queue (record t { scheduled_tx_event = none }) s)
    | inr other ↦ rw other (omega arith)
  ]

  receive_from_driver-le :
      (event : LinEvent) (t : Transport) (s : S)
      → d.waiting (receive_from_driver w event t s).1 ≤ d.waiting s
  unfolding receive_from_driver
  receive_from_driver-le event t s =
      ground (arith, confirm_scheduled-le t.scheduled_tx_event event t s)

  on_answer_ends :
      (next : Bool → Transport → S → Option (Transport × S × Result Error Bool))
      → (answer : Result DriverError (Option LinEvent)) → (received : Bool) (t : Transport) (s : S)
      → ((event : LinEvent)
          → answer ≡ ok (some event)
          → (b : Bool) (t' : Transport) (s' : S) → d.waiting s' ≤ d.waiting s
          → is_some (next b t' s') ≡ true)
      → is_some (on_answer w next answer received t s) ≡ true
  on_answer_ends next (err e) received t s ih = refl
  on_answer_ends next (ok none) received t s ih = refl
  on_answer_ends next (ok (some event)) received t s ih =
      ih event refl _ _ _ (receive_from_driver-le event t s)

  read_loop_ends :
      (fuel : ℕ) (timeout : ℤ) (received : Bool) (t : Transport) (s : S)
      → d.waiting s < fuel
      → is_some (read_loop w fuel timeout received t s) ≡ true
  unfolding read_loop
  read_loop_ends zero timeout received t s h = absurd (omega arith)
  read_loop_ends (suc fuel) timeout received t s h =
      let (answer, s') = w.driver.read_event timeout t.channel s in
      on_answer_ends (read_loop w fuel timeout) answer received t s' λ event e b t' s'' le.
        let less : d.waiting s' < d.waiting s = d.read_takes timeout t.channel s event e in
        read_loop_ends fuel timeout b t' s'' (omega arith)

  finish_ends :
      (o : Option (Transport × S × Result Error Bool))
      → is_some o ≡ true
      → is_some (finish w o) ≡ true
  finish_ends none h = cc
  finish_ends (some (t, s, outcome)) h = refl

  -- One more unit of fuel than events wait in the driver lets `execute` end, in every state and
  -- whatever the events are.
  pub execute_ends :
      (fuel : ℕ) (t : Transport) (s : S) → d.waiting s < fuel → is_some (execute w fuel t s) ≡ true
  unfolding execute
  execute_ends fuel t s h =
      let t1 = check_multi_frame_timeout (w.now s) t in
      elim (Bool-cases t.closed) [
        | inl shut ↦ simp shut refl
        | inr opened ↦ elim (Bool-cases (is_master_idle t1)) [
          | inl idle ↦ simp (opened, idle) refl
          | inr busy ↦
              simp (opened, busy) (finish_ends _ (read_loop_ends fuel (timeout_of t1) _ t1 s h))
        ]
      ]
