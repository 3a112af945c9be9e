-- ===== src/Queries/Joins/Greedy.antt =====
-- The loop of the search: joining any joinable edge first loses nothing.
use queryops_ai.Prelude.{
  ℕ, zero, suc, String, Bool, true, false, ◌||◌, none, some, List, [], ◌∷◌, map, str_eq, contains,
  length, ◌≡◌, ◌≤◌, refl, sym, ap, subst, ◌∙◌, inl, inr, arith, Bool-cases, Option-cases,
}
use queryops_ai.Prelude.Shuffles.{Removes, Shuffle, Shuffle-Removes, Removes-map}
use queryops_ai.Queries.Joins.{Edge, Join, Progress, is_joinable, added_by, pop_first, join_loop}
use queryops_ai.Queries.Joins.Sequence.{
  IsStep, IsJoinSequence, edge_of, added_of, step_lem, IsStep-is_joinable, join_first,
}

-- What is popped passes the test and stood in the list.
pub pop_first_sound :
    {A : Type 0} (test : A → Bool) (xs : List A) {x : A} {rest : List A}
    → pop_first test xs ≡ some (x, rest)
    → (test x ≡ true) × Removes x xs rest
unfolding pop_first
pop_first_sound test [] h = cc
pop_first_sound test (y ∷ ys) h = elim (Bool-cases (test y)) [
  | inl t ↦ ground arith
  | inr f ↦ elim (Option-cases (pop_first test ys)) [
    | inl e ↦ ground arith
    | inr ((z, zs), e) ↦
        let (t, k) = pop_first_sound test ys e in
        (ground arith, inr (zs, ground arith, ground arith))
  ]
]

-- Nothing is popped only if nothing passes the test.
pub pop_first-none :
    {A : Type 0} (test : A → Bool) (xs rest : List A) (x : A)
    → Removes x xs rest
    → pop_first test xs ≡ none
    → test x ≡ false
unfolding pop_first
pop_first-none test [] rest x k h = elim k [ ]
pop_first-none test (y ∷ ys) rest x (inl (e, _)) h = ground arith
pop_first-none test (y ∷ ys) rest x (inr (rest', _, k)) h =
    elim (Option-cases (pop_first test ys)) [
      | inl e ↦ pop_first-none test ys rest' x k e
      | inr ((z, zs), e) ↦ ground arith
    ]

pub length-Removes :
    {A : Type 0} (x : A) (xs rest : List A) → Removes x xs rest → length xs ≡ suc (length rest)
length-Removes x [] rest h = elim h [ ]
length-Removes x (y ∷ ys) rest (inl (_, p)) = rw p
length-Removes x (y ∷ ys) rest (inr (rest', p, h)) = rw p (ap suc (length-Removes x ys rest' h))

added-Removes :
    (x : String) (j : Join) (js rest : List Join)
    → Removes j js rest
    → contains x (map added_of js) ≡ (str_eq x j.added || contains x (map added_of rest))
added-Removes x j [] rest h = elim h [ ]
added-Removes x j (k ∷ ks) rest (inl (e, p)) = rw (e, p)
added-Removes x j (k ∷ ks) rest (inr (rest', p, h)) =
    rw p (ground (arith, added-Removes x j ks rest' h))

-- An entity that is added first is among what is added.
later_first : (a b c : Bool) → (b || (a || c)) ≡ ((a || b) || c)
later_first true true c = refl
later_first true false c = refl
later_first false true c = refl
later_first false false c = refl

pub join_loop-stuck :
    (n : ℕ) (av : List String) (pending : List Edge)
    → pop_first (is_joinable av) pending ≡ none
    → join_loop (suc n) av pending ≡ record { ordered = []; pending = pending; available = av }
unfolding join_loop
join_loop-stuck n av pending e = rw (e, join_loop)

-- The result of a round, from that of the later ones.
abbrev pub joined_before : Edge → String → Progress → Progress
joined_before e a later = record later { ordered = record { edge = e; added = a } ∷ later.ordered }

pub join_loop-step :
    (n : ℕ) (av : List String) (pending : List Edge) (e : Edge) (rest : List Edge)
    → pop_first (is_joinable av) pending ≡ some (e, rest)
    → join_loop (suc n) av pending
      ≡ joined_before e (added_by av e) (join_loop n (added_by av e ∷ av) rest)
unfolding join_loop
join_loop-step n av pending e rest p = rw (p, join_loop)

-- What the loop has joined, and what it has reached by that.
abbrev pub IsSound : List String → List Edge → Progress → Type 0
IsSound av pending end =
    IsJoinSequence av end.ordered
    × (end.pending ≡ [] → Shuffle (map edge_of end.ordered) pending)
    × ((x : String)
        → contains x end.available ≡ (contains x (map added_of end.ordered) || contains x av))

pub join_loop-IsSound :
    (n : ℕ) (av : List String) (pending : List Edge) → IsSound av pending (join_loop n av pending)
unfolding join_loop
join_loop-IsSound zero av pending = (tt, λ h. h, λ x. refl)
join_loop-IsSound (suc n) av pending = elim (Option-cases (pop_first (is_joinable av) pending)) [
  | inl e ↦
      subst (IsSound av pending) (sym (join_loop-stuck n av pending e)) (tt, λ h. h, λ x. refl)
  | inr ((e, rest), p) ↦
      let a = added_by av e in
      let (joinable, off) = pop_first_sound (is_joinable av) pending p in
      let (seq, shuffled, reach) = join_loop-IsSound n (a ∷ av) rest in
      subst (IsSound av pending) (sym (join_loop-step n av pending e rest p)) (
        (step_lem av e joinable, seq),
        (λ h. (rest, off, shuffled h)),
        λ x.
            reach x
            ∙ later_first (str_eq x a)
                (contains x (map added_of (join_loop n (a ∷ av) rest).ordered)) (contains x av),
      )
]

-- All is joined, and as much is reached as the sequence reaches.
abbrev pub IsWhole : List String → List Join → Progress → Type 0
IsWhole av js end =
    (end.pending ≡ [])
    × ((x : String) → contains x end.available ≡ (contains x (map added_of js) || contains x av))

join_loop-nothing : (n : ℕ) (av : List String) → IsWhole av [] (join_loop n av [])
unfolding join_loop pop_first
join_loop-nothing zero av = (refl, λ x. refl)
join_loop-nothing (suc n) av = (refl, λ x. refl)

-- If there is a sequence with the pending edges, then the loop joins them all.
pub join_loop-IsWhole :
    (n : ℕ) (av : List String) (pending : List Edge) (js : List Join)
    → length pending ≤ n
    → IsJoinSequence av js
    → Shuffle (map edge_of js) pending
    → IsWhole av js (join_loop n av pending)
join_loop-IsWhole n av pending [] bound h k = rw k (join_loop-nothing n av)
join_loop-IsWhole zero av pending (j ∷ js) bound (first, more) (rest, off, k) =
    absurd (omega (arith, length-Removes j.edge pending rest off))
join_loop-IsWhole (suc n) av pending (j ∷ js) bound (first, more) (rest, off, k) =
    elim (Option-cases (pop_first (is_joinable av) pending)) [
      | inl e ↦
          let stuck = pop_first-none (is_joinable av) pending rest j.edge off e in
          absurd (cc (stuck, (IsStep-is_joinable av j first).0))
      | inr ((e, left), p) ↦
          let a = added_by av e in
          let (joinable, taken) = pop_first_sound (is_joinable av) pending p in
          let (es, from, shuffled) =
            Shuffle-Removes e (edge_of j ∷ map edge_of js) pending left (rest, off, k) taken in
          let (j', js', out, same, images) = Removes-map edge_of e (j ∷ js) es from in
          let step : IsStep av (record { edge = j'.edge; added = a }) =
            subst (λ d. IsStep av (record { edge = d; added = a })) (sym same)
              (step_lem av e joinable) in
          let (added, seq) = join_first av j' a (j ∷ js) js' (first, more) out step in
          let (done, reach) =
            join_loop-IsWhole n (a ∷ av) left js'
              (omega (arith, length-Removes e pending left taken)) seq
              (subst (λ l. Shuffle l left) (sym images) shuffled) in
          subst (IsWhole av (j ∷ js)) (sym (join_loop-step n av pending e left p)) (
            done,
            λ x.
                let out_x = added-Removes x j' (j ∷ js) js' out in
                let texts = ap (λ b. str_eq x b) added in
                reach x
                ∙ later_first (str_eq x a) (contains x (map added_of js')) (contains x av)
                ∙ ap (λ t. (t || contains x (map added_of js')) || contains x av) (sym texts)
                ∙ ap (λ t. t || contains x av) (sym out_x),
          )
    ]
