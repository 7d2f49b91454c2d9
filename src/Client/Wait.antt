-- ===== src/Client/Wait.antt =====
-- What ends a UDS request's wait, as a relation with deadlines, and that the loop computes it.
use linbuskit.Base.{
  ℕ, ◌+◌, ◌%◌, ◌≤◌, ◌<◌, ◌≡◌, ◌≢◌, ◌↔◌, ◌⊎◌, inl, inr, refl, arith, List, [], ◌∷◌, Option, none,
  some, true, false, length, ℤ, ltb→lt, lt→ltb, Bool-cases,
}
use mathlib.Core.Path.{subst}
use linbuskit.Transport.Config.{broadcast_nad}
use linbuskit.Transport.State.{LinMessage, Error, transport_closed}
use linbuskit.Transport.Assembly.{byte_at}
use linbuskit.Master.{Arrival, message, failure, closed, ended, ContextError}
use linbuskit.Client.{
  Answer, failed, response_timeout, transport_failed, context_ended, negative_response, ignore,
  pending, answer, judge, response_wait_context, is_expired, await_answer,
}

module _ (p2 : ℤ) (nad sid : ℕ) where
  abbrev pub FromTarget : LinMessage → Type 0
  FromTarget m = (nad ≡ broadcast_nad) ⊎ (m.nad ≡ nad)

  -- A negative response to the service that was requested.
  pub record IsNegative (m : LinMessage) : Type 0 where
    pub target : FromTarget m
    pub negative : m.sid ≡ 0x7F
    pub complete : 2 ≤ length m.payload
    pub service : byte_at m.payload 0 ≡ sid

  pub record IsPositive (m : LinMessage) : Type 0 where
    pub target : FromTarget m
    pub not_negative : m.sid ≢ 0x7F
    pub service : m.sid ≡ (sid + 0x40) % 256

  -- Traffic that does not end the wait and leaves its deadline.
  pub data Ignored (m : LinMessage) : Type 0 where
    other_node : nad ≢ broadcast_nad → m.nad ≢ nad → Ignored m
    other_service : m.sid ≢ 0x7F → m.sid ≢ (sid + 0x40) % 256 → Ignored m
    malformed : m.sid ≡ 0x7F → length m.payload < 2 → Ignored m
    unrelated : m.sid ≡ 0x7F → byte_at m.payload 0 ≢ sid → Ignored m

  -- The response's SID and data, whole.
  abbrev pub whole : LinMessage → List ℕ
  whole m = m.sid ∷ m.payload

  pub data Awaits : Option ℕ → List (ℕ × Arrival) → Option Answer → Type 0 where
    blocked : Awaits none [] none
    silence : {d : ℕ} → Awaits (some d) [] (some (failed response_timeout))
    late :
        {d time : ℕ} {a : Arrival} {rest : List (ℕ × Arrival)}
        → d < time
        → Awaits (some d) ((time, a) ∷ rest) (some (failed response_timeout))
    skip :
        {deadline : Option ℕ} {time : ℕ} {m : LinMessage} {rest : List (ℕ × Arrival)}
        → {o : Option Answer} → is_expired deadline time ≡ false
        → Ignored m
        → Awaits deadline rest o
        → Awaits deadline ((time, message m) ∷ rest) o
    extend :
        {deadline : Option ℕ} {time : ℕ} {m : LinMessage} {rest : List (ℕ × Arrival)}
        → {o : Option Answer} → is_expired deadline time ≡ false
        → IsNegative m
        → byte_at m.payload 1 ≡ 0x78
        → Awaits (response_wait_context time p2) rest o
        → Awaits deadline ((time, message m) ∷ rest) o
    reject :
        {deadline : Option ℕ} {time : ℕ} {m : LinMessage} {rest : List (ℕ × Arrival)}
        → (nrc : ℕ) → is_expired deadline time ≡ false
        → IsNegative m
        → byte_at m.payload 1 ≡ nrc
        → nrc ≢ 0x78
        → Awaits deadline ((time, message m) ∷ rest) (
            some (record {
              nad = m.nad;
              response = whole m;
              error = some (negative_response sid nrc);
            }))
    accept :
        {deadline : Option ℕ} {time : ℕ} {m : LinMessage} {rest : List (ℕ × Arrival)}
        → is_expired deadline time ≡ false
        → IsPositive m
        → Awaits deadline
            ((time, message m) ∷ rest)
            (some (record { nad = m.nad; response = whole m; error = none }))
    fail :
        {deadline : Option ℕ} {time : ℕ} {e : Error} {rest : List (ℕ × Arrival)}
        → is_expired deadline time ≡ false
        → Awaits deadline ((time, failure e) ∷ rest) (some (failed (transport_failed e)))
    shut :
        {deadline : Option ℕ} {time : ℕ} {rest : List (ℕ × Arrival)}
        → is_expired deadline time ≡ false
        → Awaits deadline
            ((time, closed) ∷ rest)
            (some (failed (transport_failed transport_closed)))
    cancel :
        {deadline : Option ℕ} {time : ℕ} {c : ContextError} {rest : List (ℕ × Arrival)}
        → is_expired deadline time ≡ false
        → Awaits deadline ((time, ended c) ∷ rest) (some (failed (context_ended c)))

  judge_cases :
      (m : LinMessage)
      → (Ignored m × (judge nad sid m ≡ ignore))
        ⊎ (IsNegative m × (byte_at m.payload 1 ≡ 0x78) × (judge nad sid m ≡ pending))
        ⊎ (IsNegative m
            × (byte_at m.payload 1 ≢ 0x78)
            × (judge nad sid m
                ≡ answer (record {
                  nad = m.nad;
                  response = whole m;
                  error = some (negative_response sid (byte_at m.payload 1));
                })))
        ⊎ (IsPositive m
            × (judge nad sid m ≡ answer (record { nad = m.nad; response = whole m; error = none })))
  unfolding judge
  judge_cases m = grind (arith, other_node, other_service, malformed, unrelated)

  expired :
      (deadline : Option ℕ) (time : ℕ) (a : Arrival) (rest : List (ℕ × Arrival))
      → is_expired deadline time ≡ true
      → Awaits deadline ((time, a) ∷ rest) (some (failed response_timeout))
  expired none time a rest e = cc
  expired (some d) time a rest e = late (ltb→lt _ _ e)

  -- An arrival in time is judged; the rest of the wait is given for every deadline.
  on_time :
      (deadline : Option ℕ) (time : ℕ) (a : Arrival) (rest : List (ℕ × Arrival))
      → is_expired deadline time ≡ false
      → ((d : Option ℕ) → Awaits d rest (await_answer p2 nad sid d rest))
      → Awaits deadline ((time, a) ∷ rest) (await_answer p2 nad sid deadline ((time, a) ∷ rest))
  unfolding await_answer
  on_time deadline time (message m) rest e ih = elim (judge_cases m) [
    | inl (i, j) ↦ rw (e, j, await_answer) (skip e i (ih deadline))
    | inr (inl (n, h, j)) ↦
        rw (e, j, await_answer) (extend e n h (ih (response_wait_context time p2)))
    | inr (inr (inl (n, h, j))) ↦ rw (e, j, await_answer) (reject _ e n refl h)
    | inr (inr (inr (p, j))) ↦ rw (e, j, await_answer) (accept e p)
  ]
  on_time deadline time (failure x) rest e ih = rw (e, await_answer) (fail e)
  on_time deadline time closed rest e ih = rw (e, await_answer) (shut e)
  on_time deadline time (ended c) rest e ih = rw (e, await_answer) (cancel e)

  await_answer-Awaits :
      (deadline : Option ℕ) (seen : List (ℕ × Arrival))
      → Awaits deadline seen (await_answer p2 nad sid deadline seen)
  unfolding await_answer
  await_answer-Awaits none [] = blocked
  await_answer-Awaits (some d) [] = silence
  await_answer-Awaits deadline ((time, a) ∷ rest) = elim (Bool-cases (is_expired deadline time)) [
    | inl e ↦ rw (e, await_answer) (expired deadline time a rest e)
    | inr e ↦ on_time deadline time a rest e (λ d. await_answer-Awaits d rest)
  ]

  judge-Ignored : (m : LinMessage) → Ignored m → judge nad sid m ≡ ignore
  unfolding judge
  judge-Ignored m (other_node h k) = ground arith
  judge-Ignored m (other_service h k) = ground arith
  judge-Ignored m (malformed h k) = ground arith
  judge-Ignored m (unrelated h k) = ground arith

  judge-pending :
      (m : LinMessage) → IsNegative m → byte_at m.payload 1 ≡ 0x78 → judge nad sid m ≡ pending
  unfolding judge
  judge-pending m n h = ground arith

  judge-rejected :
      (m : LinMessage) (nrc : ℕ)
      → IsNegative m
      → byte_at m.payload 1 ≡ nrc
      → nrc ≢ 0x78
      → judge nad sid m
        ≡ answer
            (record { nad = m.nad; response = whole m; error = some (negative_response sid nrc) })
  unfolding judge
  judge-rejected m nrc n e h = ground arith

  judge-accepted :
      (m : LinMessage)
      → IsPositive m
      → judge nad sid m ≡ answer (record { nad = m.nad; response = whole m; error = none })
  unfolding judge
  judge-accepted m p = ground arith

  Awaits-result :
      {deadline : Option ℕ} {seen : List (ℕ × Arrival)} {o : Option Answer}
      → Awaits deadline seen o
      → await_answer p2 nad sid deadline seen ≡ o
  unfolding await_answer
  Awaits-result blocked = refl
  Awaits-result silence = refl
  Awaits-result (late h) = rw (lt→ltb _ _ h, await_answer)
  Awaits-result (skip {m} e i w) = rw (e, judge-Ignored m i, await_answer) (Awaits-result w)
  Awaits-result (extend {m} e n h w) = rw (e, judge-pending m n h, await_answer) (Awaits-result w)
  Awaits-result (reject {m} nrc e n q h) = rw (e, judge-rejected m nrc n q h, await_answer)
  Awaits-result (accept {m} e p) = rw (e, judge-accepted m p, await_answer)
  Awaits-result (fail e) = rw (e, await_answer)
  Awaits-result (shut e) = rw (e, await_answer)
  Awaits-result (cancel e) = rw (e, await_answer)

  -- The wait gives an answer exactly if the relation does: ignored traffic leaves the deadline,
  -- each pending response sets it anew, and the first other arrival in time, or else the deadline,
  -- decides.
  pub await_answer_exact :
      (deadline : Option ℕ) (seen : List (ℕ × Arrival)) (o : Option Answer)
      → (await_answer p2 nad sid deadline seen ≡ o) ↔ Awaits deadline seen o
  await_answer_exact deadline seen o = (
    λ e. subst (Awaits deadline seen) e (await_answer-Awaits deadline seen),
    λ w. Awaits-result w,
  )
