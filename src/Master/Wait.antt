-- ===== src/Master/Wait.antt =====
-- What ends the wait for a response, as a relation, and that `waitForResponse` computes it.
use linbuskit.Base.{
  ℕ, ◌≤◌, ◌<◌, ◌≡◌, ◌≢◌, ◌↔◌, ◌⊎◌, inl, inr, refl, arith, List, [], ◌∷◌, none, some, ok, err,
  length,
}
use mathlib.Core.Path.{subst}
use linbuskit.Transport.Config.{broadcast_nad}
use linbuskit.Transport.State.{LinMessage, Error}
use linbuskit.Transport.Assembly.{byte_at}
use linbuskit.Master.{
  Arrival, message, failure, closed, ended, canceled, deadline_exceeded, context_canceled,
  transport_closed, timeout, transport_failed, negative_response, Waiting, consider, requested_sid,
  wait_for_response,
}

module _ (expected_rsid expected_nad : ℕ) where
  -- The message comes from a node that the request was for.
  abbrev pub FromTarget : LinMessage → Type 0
  FromTarget m = (expected_nad ≡ broadcast_nad) ⊎ (m.nad ≡ expected_nad)

  -- A negative response to the requested service.
  pub record IsNegative (m : LinMessage) : Type 0 where
    pub other_sid : m.sid ≢ expected_rsid
    pub negative : m.sid ≡ 0x7F
    pub complete : 2 ≤ length m.payload
    pub service : byte_at m.payload 0 ≡ requested_sid expected_rsid

  -- Traffic that does not end the wait: from another node, of another service, a negative response
  -- that is malformed or about another service, or one that says that the response is pending.
  pub data Ignored (m : LinMessage) : Type 0 where
    other_node : expected_nad ≢ broadcast_nad → m.nad ≢ expected_nad → Ignored m
    other_service : m.sid ≢ expected_rsid → m.sid ≢ 0x7F → Ignored m
    malformed : m.sid ≢ expected_rsid → length m.payload < 2 → Ignored m
    unrelated :
        m.sid ≢ expected_rsid → byte_at m.payload 0 ≢ requested_sid expected_rsid → Ignored m
    pending : m.sid ≢ expected_rsid → byte_at m.payload 1 ≡ 0x78 → Ignored m

  pub data Waits : List Arrival → Waiting LinMessage → Type 0 where
    blocked : Waits [] none
    skip :
        {m : LinMessage} {rest : List Arrival} {o : Waiting LinMessage}
        → Ignored m
        → Waits rest o
        → Waits (message m ∷ rest) o
    accept :
        {m : LinMessage} {rest : List Arrival}
        → FromTarget m
        → m.sid ≡ expected_rsid
        → Waits (message m ∷ rest) (some (ok m))
    reject :
        {m : LinMessage} {rest : List Arrival} (nrc : ℕ)
        → FromTarget m
        → IsNegative m
        → byte_at m.payload 1 ≡ nrc
        → nrc ≢ 0x78
        → Waits
            (message m ∷ rest)
            (some (err (negative_response (requested_sid expected_rsid) nrc)))
    fail :
        {e : Error} {rest : List Arrival}
        → Waits (failure e ∷ rest) (some (err (transport_failed e)))
    shut : {rest : List Arrival} → Waits (closed ∷ rest) (some (err transport_closed))
    cancel : {rest : List Arrival} → Waits (ended canceled ∷ rest) (some (err context_canceled))
    expire : {rest : List Arrival} → Waits (ended deadline_exceeded ∷ rest) (some (err timeout))

  consider_cases :
      (m : LinMessage)
      → (Ignored m × (consider expected_rsid expected_nad m ≡ none))
        ⊎ (FromTarget m
            × (m.sid ≡ expected_rsid)
            × (consider expected_rsid expected_nad m ≡ some (ok m)))
        ⊎ (FromTarget m
            × IsNegative m
            × (byte_at m.payload 1 ≢ 0x78)
            × (consider expected_rsid expected_nad m
                ≡ some
                    (err (negative_response (requested_sid expected_rsid) (byte_at m.payload 1)))))
  unfolding consider
  consider_cases m = grind (arith, other_node, other_service, malformed, unrelated, pending)

  wait_for_response-Waits :
      (seen : List Arrival) → Waits seen (wait_for_response expected_rsid expected_nad seen)
  unfolding wait_for_response
  wait_for_response-Waits [] = blocked
  wait_for_response-Waits (message m ∷ rest) = elim (consider_cases m) [
    | inl (i, e) ↦ rw (e, wait_for_response) (skip i (wait_for_response-Waits rest))
    | inr (inl (f, s, e)) ↦ rw (e, wait_for_response) (accept f s)
    | inr (inr (f, n, h, e)) ↦ rw (e, wait_for_response) (reject _ f n refl h)
  ]
  wait_for_response-Waits (failure e ∷ rest) = fail
  wait_for_response-Waits (closed ∷ rest) = shut
  wait_for_response-Waits (ended canceled ∷ rest) = cancel
  wait_for_response-Waits (ended deadline_exceeded ∷ rest) = expire

  consider-Ignored : (m : LinMessage) → Ignored m → consider expected_rsid expected_nad m ≡ none
  unfolding consider
  consider-Ignored m (other_node h k) = ground arith
  consider-Ignored m (other_service h k) = ground arith
  consider-Ignored m (malformed h k) = ground arith
  consider-Ignored m (unrelated h k) = ground arith
  consider-Ignored m (pending h k) = ground arith

  consider-rejected :
      (m : LinMessage) (nrc : ℕ)
      → FromTarget m
      → IsNegative m
      → byte_at m.payload 1 ≡ nrc
      → nrc ≢ 0x78
      → consider expected_rsid expected_nad m
        ≡ some (err (negative_response (requested_sid expected_rsid) nrc))
  unfolding consider
  consider-rejected m nrc f n e h = ground arith

  consider-accepted :
      (m : LinMessage)
      → FromTarget m
      → m.sid ≡ expected_rsid
      → consider expected_rsid expected_nad m ≡ some (ok m)
  unfolding consider
  consider-accepted m f e = ground arith

  Waits-result :
      {seen : List Arrival} {o : Waiting LinMessage}
      → Waits seen o
      → wait_for_response expected_rsid expected_nad seen ≡ o
  unfolding wait_for_response
  Waits-result blocked = refl
  Waits-result (skip {m} i w) = rw (consider-Ignored m i, wait_for_response) (Waits-result w)
  Waits-result (accept {m} f s) = rw (consider-accepted m f s, wait_for_response)
  Waits-result (reject {m} nrc f n e h) = rw (consider-rejected m nrc f n e h, wait_for_response)
  Waits-result fail = refl
  Waits-result shut = refl
  Waits-result cancel = refl
  Waits-result expire = refl

  -- `waitForResponse` gives an answer exactly if the relation does: it goes past all traffic that
  -- it should ignore, pending responses among it, and the first other arrival decides.
  pub wait_for_response_exact :
      (seen : List Arrival) (o : Waiting LinMessage)
      → (wait_for_response expected_rsid expected_nad seen ≡ o) ↔ Waits seen o
  wait_for_response_exact seen o =
      (λ e. subst (Waits seen) e (wait_for_response-Waits seen), λ w. Waits-result w)
