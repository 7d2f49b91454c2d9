-- ===== src/Drivers/Elins/Compaction.antt =====
-- That FilterElinsMsgs keeps the right messages, though it overwrites the array that it reads.
use linbuskit.Base.{
  ℕ, suc, ◌+◌, ◌≡◌, refl, arith, ap, sym, ◌∙◌, List, [], ◌∷◌, ◌++◌, Option, none, some, true, false,
  length, length-append, take, append_assoc, append-nil, Bool-cases, inl, inr,
}
use linbuskit.Drivers.Elins.Filters.{
  ElinsMsg, ElinsMsgFilter, get_msg, set_msg, compact, filter_elins_msgs, filtered,
  elins_filter_and,
}

get_msg-append :
    (front : List ElinsMsg) (m : ElinsMsg) (rest : List ElinsMsg)
    → get_msg (length front) (front ++ m ∷ rest) ≡ some m
get_msg-append [] m rest = refl
get_msg-append (x ∷ front) m rest = get_msg-append front m rest

set_msg-append :
    (kept : List ElinsMsg) (m x : ElinsMsg) (rest : List ElinsMsg)
    → set_msg (length kept) m (kept ++ x ∷ rest) ≡ (kept ++ m ∷ []) ++ rest
set_msg-append [] m x rest = refl
set_msg-append (k ∷ kept) m x rest = ap (λ l. k ∷ l) (set_msg-append kept m x rest)

take-append : (kept rest : List ElinsMsg) → take (length kept) (kept ++ rest) ≡ kept
take-append [] rest = refl
take-append (k ∷ kept) rest = ap (λ l. k ∷ l) (take-append kept rest)

-- The array as the loop sees it: what it keeps, what it has passed, and what is left.
abbrev At : ℕ → ℕ → List ElinsMsg → List ElinsMsg → List ElinsMsg → List ElinsMsg → Type 0
At i n msgs kept passed rest =
    (i ≡ length (kept ++ passed)) × (n ≡ length kept) × (msgs ≡ kept ++ (passed ++ rest))

get_msg-At :
    (i n : ℕ) (msgs kept passed : List ElinsMsg) (m : ElinsMsg) (rest : List ElinsMsg)
    → At i n msgs kept passed (m ∷ rest)
    → get_msg i msgs ≡ some m
get_msg-At i n msgs kept passed m rest (hi, hn, hm) =
    rw (hi, hm)
      (rw⁻¹ (append_assoc kept passed (m ∷ rest)) (get_msg-append (kept ++ passed) m rest))

-- A message that is dropped is passed.
At-drop :
    (i n : ℕ) (msgs kept passed : List ElinsMsg) (m : ElinsMsg) (rest : List ElinsMsg)
    → At i n msgs kept passed (m ∷ rest)
    → At (i + 1) n msgs kept (passed ++ m ∷ []) rest
At-drop i n msgs kept passed m rest (hi, hn, hm) = (
  omega (
    arith,
    length-append kept passed,
    length-append kept (passed ++ m ∷ []),
    length-append passed (m ∷ []),
  ),
  hn,
  hm ∙ ap (λ l. kept ++ l) (sym (append_assoc passed (m ∷ []) rest)),
)

-- What stands where the next message is kept, with as many passed behind it as before.
next_place :
    (passed : List ElinsMsg) (m : ElinsMsg) (rest : List ElinsMsg)
    → (x : ElinsMsg) × (passed' : List ElinsMsg) × (passed ++ m ∷ rest ≡ x ∷ (passed' ++ rest))
      × (length passed' ≡ length passed)
next_place [] m rest = (m, [], refl, refl)
next_place (p ∷ ps) m rest = (
  p,
  ps ++ m ∷ [],
  ap (λ l. p ∷ l) (sym (append_assoc ps (m ∷ []) rest)),
  omega (arith, length-append ps (m ∷ [])),
)

At-keep :
    (i n : ℕ) (msgs kept passed : List ElinsMsg) (m : ElinsMsg) (rest : List ElinsMsg)
    → At i n msgs kept passed (m ∷ rest)
    → (passed' : List ElinsMsg) × At
        (i + 1)
        (n + 1)
        (set_msg n m msgs)
        (kept ++ m ∷ [])
        passed'
        rest
At-keep i n msgs kept passed m rest (hi, hn, hm) =
    let (x, passed', same, count) = next_place passed m rest in
    (
      passed',
      (
        omega (
          arith,
          length-append kept passed,
          length-append kept (m ∷ []),
          length-append (kept ++ m ∷ []) passed',
        ),
        omega (arith, length-append kept (m ∷ [])),
        rw (hn, hm, same) (set_msg-append kept m x (passed' ++ rest)),
      ),
    )

compact_keeps :
    (keep : ElinsMsgFilter) (left i n : ℕ) (msgs : List ElinsMsg) (m : ElinsMsg)
    → get_msg i msgs ≡ some m
    → keep m ≡ true
    → compact keep (suc left) i n msgs ≡ compact keep left (i + 1) (n + 1) (set_msg n m msgs)
unfolding compact
compact_keeps keep left i n msgs m here good = rw (here, good)

compact_drops :
    (keep : ElinsMsgFilter) (left i n : ℕ) (msgs : List ElinsMsg) (m : ElinsMsg)
    → get_msg i msgs ≡ some m
    → keep m ≡ false
    → compact keep (suc left) i n msgs ≡ compact keep left (i + 1) n msgs
unfolding compact
compact_drops keep left i n msgs m here bad = rw (here, bad)

abbrev taken : List ElinsMsg × ℕ → List ElinsMsg
taken (msgs, n) = take n msgs

compact-filtered :
    (keep : ElinsMsgFilter) (rest : List ElinsMsg) (i n : ℕ) (msgs kept passed : List ElinsMsg)
    → At i n msgs kept passed rest
    → taken (compact keep (length rest) i n msgs) ≡ kept ++ filtered keep rest
unfolding compact
compact-filtered keep [] i n msgs kept passed (hi, hn, hm) =
    rw (hn, hm, append-nil passed, append-nil kept) (take-append kept passed)
compact-filtered keep (m ∷ rest) i n msgs kept passed at =
    let here = get_msg-At i n msgs kept passed m rest at in
    elim (Bool-cases (keep m)) [
      | inl good ↦
          let (passed', after) = At-keep i n msgs kept passed m rest at in
          rw (compact_keeps keep (length rest) i n msgs m here good, good)
            (compact-filtered keep rest (i + 1) (n + 1) (set_msg n m msgs) (kept ++ m ∷ []) passed'
                after
              ∙ append_assoc kept (m ∷ []) (filtered keep rest))
      | inr bad ↦
          rw (compact_drops keep (length rest) i n msgs m here bad, bad)
            (compact-filtered keep rest (i + 1) n msgs kept (passed ++ m ∷ [])
              (At-drop i n msgs kept passed m rest at))
    ]

-- FilterElinsMsgs, which moves the messages within the array that it reads, returns those that the
-- filter keeps, in their order; a nil filter keeps all.
pub filter_elins_msgs-filtered :
    (msgs : List ElinsMsg) (keep : ElinsMsgFilter)
    → (filter_elins_msgs msgs (some keep) ≡ filtered keep msgs)
      × (filter_elins_msgs msgs none ≡ msgs)
unfolding filter_elins_msgs
filter_elins_msgs-filtered msgs keep =
    (compact-filtered keep msgs 0 0 msgs [] [] (refl, refl, refl), refl)

filtered-nothing : (msgs : List ElinsMsg) → filtered (elins_filter_and []) msgs ≡ msgs
unfolding elins_filter_and
filtered-nothing [] = refl
filtered-nothing (m ∷ msgs) = ap (λ l. m ∷ l) (filtered-nothing msgs)

filtered-both :
    (f : ElinsMsgFilter) (rest : List (Option ElinsMsgFilter)) (msgs : List ElinsMsg)
    → filtered (elins_filter_and (some f ∷ rest)) msgs
      ≡ filtered (elins_filter_and rest) (filtered f msgs)
unfolding elins_filter_and
filtered-both f rest [] = refl
filtered-both f rest (m ∷ msgs) = elim (Bool-cases (f m)) [
  | inl good ↦ elim (Bool-cases (elins_filter_and rest m)) [
    | inl also ↦ rw (good, also) (ap (λ l. m ∷ l) (filtered-both f rest msgs))
    | inr bad ↦ rw (good, bad) (filtered-both f rest msgs)
  ]
  | inr bad ↦ rw bad (filtered-both f rest msgs)
]

-- FilterElinsMsgs with each filter in turn.
abbrev pub filter_each : List (Option ElinsMsgFilter) → List ElinsMsg → List ElinsMsg
filter_each [] msgs = msgs
filter_each (f ∷ rest) msgs = filter_each rest (filter_elins_msgs msgs f)

filtered-each :
    (fs : List (Option ElinsMsgFilter)) (msgs : List ElinsMsg)
    → filtered (elins_filter_and fs) msgs ≡ filter_each fs msgs
unfolding elins_filter_and filter_elins_msgs
filtered-each [] msgs = filtered-nothing msgs
filtered-each (none ∷ rest) msgs = filtered-each rest msgs
filtered-each (some f ∷ rest) msgs =
    filtered-both f rest msgs
    ∙ (ap (λ l. filtered (elins_filter_and rest) l) (sym (filter_elins_msgs-filtered msgs f).0)
        ∙ filtered-each rest (filter_elins_msgs msgs (some f)))

-- FilterElinsMsgs with the conjunction of filters gives what the single filters give in turn, nil
-- filters among them.
filter_elins_msgs-elins_filter_and :
    (fs : List (Option ElinsMsgFilter)) (msgs : List ElinsMsg)
    → filter_elins_msgs msgs (some (elins_filter_and fs)) ≡ filter_each fs msgs
filter_elins_msgs-elins_filter_and fs msgs =
    (filter_elins_msgs-filtered msgs (elins_filter_and fs)).0 ∙ filtered-each fs msgs
