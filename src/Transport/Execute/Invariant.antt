-- ===== src/Transport/Execute/Invariant.antt =====
-- Every step of the transport over a world keeps its state valid.
use linbuskit.Base.{
  ℕ, zero, suc, ◌≤◌, ◌≡◌, refl, arith, Option, none, some, Bool, true, false, length, Result, ok,
  err, ℤ, Bool-cases, inl, inr, if◌then◌else◌,
}
use linbuskit.Lin.{LinEvent, World, DriverError}
use linbuskit.Transport.State.{Transport, LinMessage, Error, Reassembly}
use linbuskit.Transport.Assembly.{receive_frame}
use linbuskit.Transport.Assembly.Invariant.{
  IsWellFormed, reset_state-IsWellFormed, receive_frame-IsWellFormed,
}
use linbuskit.Transport.Queues.Laws.{IsValid, deliver_message-IsValid, report_error-IsValid}
use linbuskit.Transport.Execute.{
  accept, receive_diagnostic, check_multi_frame_timeout, confirm_scheduled, receive_from_driver,
  read_loop, slave_turn, master_turn, after_reads, execute, cycle, on_answer, finish, reported,
  is_master_idle, timeout_of,
}

-- A LIN frame has at most eight bytes: documented behaviour of the bus, which every driver keeps.
pub record GivesLinFrames {S : Type 0} (w : World S) : Type 0 where
  pub at_most_eight :
      (timeout : ℤ) (channel : ℕ) (s : S) (event : LinEvent)
      → (w.driver.read_event timeout channel s).0 ≡ ok (some event)
      → length event.event_payload ≤ 8

with_assembly-IsValid :
    (t : Transport) (r : Reassembly)
    → IsWellFormed r
    → IsValid t
    → IsValid (record t { assembly = r })
with_assembly-IsValid t r wf v = ground arith

accept-IsValid :
    (t : Transport) (answer : Reassembly × Option LinMessage)
    → IsWellFormed answer.0
    → IsValid t
    → IsValid (accept t answer).0
accept-IsValid t (r, none) wf v = with_assembly-IsValid t r wf v
accept-IsValid t (r, some m) wf v = with_assembly-IsValid _ r wf (deliver_message-IsValid m t v)

pub receive_diagnostic-IsValid :
    (now : ℕ) (event : LinEvent) (t : Transport)
    → length event.event_payload ≤ 8
    → IsValid t
    → IsValid (receive_diagnostic now event t).0
unfolding receive_diagnostic
receive_diagnostic-IsValid now event t short v = ground (
  arith,
  accept-IsValid t (receive_frame now event.event_payload t.assembly)
      (receive_frame-IsWellFormed now event.event_payload t.assembly short v.assembly) v,
)

pub check_multi_frame_timeout-IsValid :
    (now : ℕ) (t : Transport) → IsValid t → IsValid (check_multi_frame_timeout now t)
unfolding check_multi_frame_timeout
check_multi_frame_timeout-IsValid now t v =
    ground (arith, with_assembly-IsValid t _ reset_state-IsWellFormed v)

-- The answer, if there is one, is in a state with the property.
abbrev pub Ends {ℓ} :
    {S : Type 0} {X : Type ℓ} → (Transport → Type 0) → Option (Transport × S × X) → Type 0
Ends P none = Unit
Ends P (some (t, s, x)) = P t

module _ {S : Type 0} (w : World S) where
  confirm_scheduled-IsValid :
      (o : Option LinEvent) (event : LinEvent) (t : Transport) (s : S)
      → t.is_slave ≡ true
      → IsValid t
      → IsValid (confirm_scheduled w o event t s).0
  confirm_scheduled-IsValid none event t s slave v = v
  confirm_scheduled-IsValid (some e) event t s slave v = ground arith

  pub receive_from_driver-IsValid :
      (event : LinEvent) (t : Transport) (s : S)
      → length event.event_payload ≤ 8
      → IsValid t
      → IsValid (receive_from_driver w event t s).0
  unfolding receive_from_driver
  receive_from_driver-IsValid event t s short v = ground (
    arith,
    confirm_scheduled-IsValid t.scheduled_tx_event event t s,
    receive_diagnostic-IsValid (w.now s) event t short v,
  )

  slave_turn-IsValid :
      (t : Transport) (s : S) → t.is_slave ≡ true → IsValid t → IsValid (slave_turn w t s).0
  unfolding slave_turn
  slave_turn-IsValid t s slave v = ground arith

  master_turn-IsValid :
      (received : Bool) (t : Transport) (s : S) → IsValid t → IsValid (master_turn w received t s).0
  unfolding master_turn
  master_turn-IsValid received t s v = ground arith

  after_reads-IsValid :
      (t : Transport) (s : S) (outcome : Result Error Bool)
      → IsValid t
      → IsValid (after_reads w t s outcome).0
  after_reads-IsValid t s (err e) v = v
  after_reads-IsValid t s (ok received) v =
      ground (arith, slave_turn-IsValid t s, master_turn-IsValid received t s)

  module _ (frames : GivesLinFrames w) where
    on_answer-IsValid :
        (next : Bool → Transport → S → Option (Transport × S × Result Error Bool))
        → (answer : Result DriverError (Option LinEvent))
        → (received : Bool) (t : Transport) (s : S)
        → ((event : LinEvent) → answer ≡ ok (some event) → length event.event_payload ≤ 8)
        → ((b : Bool) (t' : Transport) (s' : S) → IsValid t' → Ends IsValid (next b t' s'))
        → IsValid t
        → Ends IsValid (on_answer w next answer received t s)
    on_answer-IsValid next (err e) received t s short ih v = v
    on_answer-IsValid next (ok none) received t s short ih v = v
    on_answer-IsValid next (ok (some event)) received t s short ih v =
        ih _ _ _ (receive_from_driver-IsValid event t s (short event refl) v)

    read_loop-IsValid :
        (fuel : ℕ) (timeout : ℤ) (received : Bool) (t : Transport) (s : S)
        → IsValid t
        → Ends IsValid (read_loop w fuel timeout received t s)
    unfolding read_loop
    read_loop-IsValid zero timeout received t s v = tt
    read_loop-IsValid (suc fuel) timeout received t s v =
        on_answer-IsValid (read_loop w fuel timeout) (w.driver.read_event timeout t.channel s).0
          received t (w.driver.read_event timeout t.channel s).1
          (frames.at_most_eight timeout t.channel s) (read_loop-IsValid fuel timeout) v

    finish-IsValid :
        (o : Option (Transport × S × Result Error Bool))
        → Ends IsValid o
        → Ends IsValid (finish w o)
    finish-IsValid none v = tt
    finish-IsValid (some (t, s, outcome)) v = after_reads-IsValid t s outcome v

    pub execute-IsValid :
        (fuel : ℕ) (t : Transport) (s : S) → IsValid t → Ends IsValid (execute w fuel t s)
    unfolding execute
    execute-IsValid fuel t s v =
        let t1 = check_multi_frame_timeout (w.now s) t in
        let v1 : IsValid t1 = check_multi_frame_timeout-IsValid (w.now s) t v in
        elim (Bool-cases t.closed) [
          | inl shut ↦ simp shut v
          | inr opened ↦ elim (Bool-cases (is_master_idle t1)) [
            | inl idle ↦ simp (opened, idle) v1
            | inr busy ↦
                simp (opened, busy)
                  (finish-IsValid _ (read_loop-IsValid fuel (timeout_of t1) false t1 s v1))
          ]
        ]

    reported-IsValid :
        (o : Option (Transport × S × Option Error))
        → Ends IsValid o
        → (t' : Transport) (s' : S) → reported o ≡ some (t', s')
        → IsValid t'
    reported-IsValid none v t' s' h = cc
    reported-IsValid (some (t, s, none)) v t' s' h = ground arith
    reported-IsValid (some (t, s, some e)) v t' s' h = ground (arith, report_error-IsValid e t v)

    -- One round of the background loop over a world that gives LIN frames keeps the state valid,
    -- whatever the frames hold and whichever driver calls fail.
    pub cycle-IsValid :
        (woken : Bool) (fuel : ℕ) (t t' : Transport) (s s' : S)
        → IsValid t
        → cycle w woken fuel t s ≡ some (t', s')
        → IsValid t'
    unfolding cycle
    cycle-IsValid woken fuel t t' s s' v h =
        let t0 = if woken then record t { wake = false } else t in
        reported-IsValid (execute w fuel t0 s) (execute-IsValid fuel t0 s (ground arith)) t' s' h
