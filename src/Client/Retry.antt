-- ===== src/Client/Retry.antt =====
-- How often a request is sent, and which attempt's result is returned.
use linbuskit.Base.{
  ℕ, zero, suc, ◌≤◌, ◌≡◌, ◌⊎◌, inl, inr, refl, ap, arith, List, [], ◌∷◌, Option, true, false, ℤ,
  pos_part, Bool-cases,
}
use linbuskit.Transport.State.{Transport}
use linbuskit.Client.{
  Client, ClientConfig, Answer, Script, is_timeout, is_retryable, max_retries_for,
  timeout_or_default, send_and_rec, attempt_loop, send_and_rec_with_retries,
}

module _ (config : ClientConfig) (nad : ℕ) (payload : List ℕ) (timeout : ℤ)
    (scripts : ℕ → Script) where
  -- The result of attempt `i` of the row.
  abbrev pub outcome : ℕ → ℕ → Transport → Transport × Option Answer
  outcome first zero t = send_and_rec config nad payload timeout (scripts first) t
  outcome first (suc i) t =
      outcome (suc first) i (send_and_rec config nad payload timeout (scripts first) t).0

  -- The first `n` attempts of the row all ran into the timeout.
  abbrev pub AllTimedOut : ℕ → ℕ → Transport → Type 0
  AllTimedOut first zero t = Unit
  AllTimedOut first (suc n) t =
      (is_timeout (outcome first zero t).1 ≡ true)
      × AllTimedOut (suc first) n (outcome first zero t).0

  attempt_loop_row :
      (left first : ℕ) (t : Transport)
      → (n : ℕ) × (n ≤ left)
        × (attempt_loop config nad payload timeout scripts left first t ≡ outcome first n t)
        × AllTimedOut first n t
        × ((n ≡ left) ⊎ (is_timeout (outcome first n t).1 ≡ false))
  unfolding attempt_loop
  attempt_loop_row zero first t = (0, omega arith, refl, tt, inl refl)
  attempt_loop_row (suc left) first t =
      let t' = (send_and_rec config nad payload timeout (scripts first) t).0 in
      elim (Bool-cases (is_timeout (send_and_rec config nad payload timeout (scripts first) t).1)) [
        | inl late ↦
            let (n, le, same, before, stop) = attempt_loop_row left (suc first) t' in
            (
              suc n,
              omega arith,
              rw (late, attempt_loop) same,
              (late, before),
              elim stop [ inl e ↦ inl (ap suc e) | inr e ↦ inr e ],
            )
        | inr done ↦ (0, omega arith, rw (done, attempt_loop), tt, inr done)
      ]

-- The retries that a request may have: those of the configuration where its service is marked as
-- safe to repeat, and none otherwise.
abbrev pub Retries : ClientConfig → List ℕ → ℕ → Type 0
Retries config [] k = k ≡ 0
Retries config (sid ∷ payload) k =
    ((is_retryable sid config.retryable_sids ≡ true) × (k ≡ pos_part config.max_retries))
    ⊎ ((is_retryable sid config.retryable_sids ≡ false) × (k ≡ 0))

Retries-for :
    (config : ClientConfig) (payload : List ℕ)
    → Retries config payload (max_retries_for config payload)
Retries-for config [] = refl
Retries-for config (sid ∷ payload) = ground arith

-- A request is tried once, and then again only as long as each attempt ran into its timeout and the
-- retries that the configuration allows for its service last. The result and the transport are
-- those of the last attempt.
pub send_and_rec_with_retries_row :
    (nad : ℕ) (payload : List ℕ) (timeout : ℤ) (scripts : ℕ → Script) (c : Client)
    → (k : ℕ) × (n : ℕ) × Retries c.config payload k
      × (n ≤ k)
      × (send_and_rec_with_retries nad payload timeout scripts c ≡ (
        record c {
          transport =
              (outcome c.config nad payload
                (timeout_or_default c.config timeout)
                scripts
                0
                n
                c.transport).0;
        },
        (outcome c.config nad payload
            (timeout_or_default c.config timeout)
            scripts
            0
            n
            c.transport).1,
      ))
      × AllTimedOut c.config nad payload
          (timeout_or_default c.config timeout)
          scripts
          0
          n
          c.transport
      × ((n ≡ k)
          ⊎ (is_timeout
                (outcome c.config nad payload
                  (timeout_or_default c.config timeout)
                  scripts
                  0
                  n
                  c.transport).1
              ≡ false))
unfolding send_and_rec_with_retries
send_and_rec_with_retries_row nad payload timeout scripts c =
    let (n, le, same, before, stop) =
      attempt_loop_row c.config nad payload (timeout_or_default c.config timeout) scripts
        (max_retries_for c.config payload) 0 c.transport in
    (max_retries_for c.config payload, n, Retries-for c.config payload, le, rw same, before, stop)
