-- ===== src/Queries/Joins/Inner.antt =====
-- What the loop of the search leaves, when all joins are inner ones.
use queryops_ai.Prelude.{
  ℕ, zero, suc, ◌+◌, ◌≤◌, String, Bool, true, false, none, List, [], ◌∷◌, str_eq, eq_iff, length,
  All, contains, ◌≡◌, refl, sym, subst, ◌∙◌, inl, inr, arith, Bool-cases, Option-cases, if-cases,
}
use queryops_ai.Prelude.Shuffles.{Removes}
use queryops_ai.Queries.Joins.{
  Edge, JoinType, Progress, is_joinable, added_by, may_join, pop_first, join_loop,
}
use queryops_ai.Queries.Joins.Sequence.{step_lem, both_ends}
use queryops_ai.Queries.Joins.Greedy.{
  pop_first_sound, length-Removes, join_loop-stuck, join_loop-step,
}

module _ {A : Type 0} where
  kept_out :
      (P : A → Type 0) (x : A) (ys rest : List A) → Removes x ys rest → All P ys → P x × All P rest
  kept_out P x [] rest h all = elim h [ ]
  kept_out P x (y ∷ ys) rest (inl (e, p)) (here, all) =
      (subst P (sym e) here, subst (All P) (sym p) all)
  kept_out P x (y ∷ ys) rest (inr (rest', p, h)) (here, all) =
      let (this, others) = kept_out P x ys rest' h all in
      (this, subst (All P) (sym p) (here, others))

  put_back :
      (P : A → Type 0) (x : A) (ys rest : List A) → Removes x ys rest → P x → All P rest → All P ys
  put_back P x [] rest h this all = tt
  put_back P x (y ∷ ys) rest (inl (e, p)) this all = (subst P e this, subst (All P) p all)
  put_back P x (y ∷ ys) rest (inr (rest', p, h)) this all =
      let (here, others) : All P (y ∷ rest') = subst (All P) p all in
      (here, put_back P x ys rest' h this others)

  unpopped :
      (test : A → Bool) (xs : List A) → pop_first test xs ≡ none → All (λ x. test x ≡ false) xs
  unfolding pop_first
  unpopped test [] h = tt
  unpopped test (y ∷ ys) h = elim (Option-cases (pop_first test ys)) [
    | inl e ↦ (ground (arith, e, h), unpopped test ys e)
    | inr ((z, zs), e) ↦ absurd (ground (arith, e, h))
  ]

-- Either both ends are there or neither is.
abbrev pub IsEven : List String → Edge → Type 0
IsEven av e = contains e.relationship.from_entity av ≡ contains e.relationship.to_entity av

abbrev pub IsInner : Edge → Type 0
IsInner e = e.join_type ≡ JoinType.inner

abbrev pub EndsIn : List String → Edge → Type 0
EndsIn keys e =
    (contains e.relationship.from_entity keys ≡ true)
    × (contains e.relationship.to_entity keys ≡ true)

stuck-IsEven : (av : List String) (e : Edge) → IsInner e → is_joinable av e ≡ false → IsEven av e
stuck-IsEven av e inner h =
    let still : may_join JoinType.inner (contains e.relationship.from_entity av)
          (contains e.relationship.to_entity av)
        ≡ false =
      subst
        (λ t.
          may_join t (contains e.relationship.from_entity av) (contains e.relationship.to_entity av)
          ≡ false)
        inner h in
    ground (arith, still)

All-IsEven :
    (av : List String) (es : List Edge)
    → All IsInner es
    → All (λ e. is_joinable av e ≡ false) es
    → All (IsEven av) es
All-IsEven av [] inner h = tt
All-IsEven av (e ∷ es) (inner, more) (h, hs) = (stuck-IsEven av e inner h, All-IsEven av es more hs)

-- What the loop leaves when the edges are inner joins within the keys: no edge leads out of what it has
-- reached, it has reached one entity with each edge that it has used, and none that is no key.
module _ (keys : List String) where
  pub record Left (av : List String) (pending : List Edge) (end : Progress) : Type 0 where
    pub even : All (IsEven end.available) pending
    pub count : length end.available + length end.pending ≡ length av + length pending
    pub wider : (x : String) → contains x av ≡ true → contains x end.available ≡ true
    pub within :
        ((x : String) → contains x av ≡ true → contains x keys ≡ true)
        → (x : String) → contains x end.available ≡ true
        → contains x keys ≡ true

  added-key : (av : List String) (e : Edge) → EndsIn keys e → contains (added_by av e) keys ≡ true
  added-key av e (source, target) =
      if-cases (λ t. contains t keys ≡ true) (contains e.relationship.from_entity av)
        e.relationship.to_entity e.relationship.from_entity (λ _. target) (λ _. source)

  stuck-Left :
      (av : List String) (pending : List Edge)
      → All (IsEven av) pending
      → Left av pending (record { ordered = []; pending = pending; available = av })
  stuck-Left av pending h = record {
    even = h;
    count = refl;
    wider = λ x k. k;
    within = λ f x k. f x k;
  }

  pub join_loop-Left :
      (n : ℕ) (av : List String) (pending : List Edge)
      → length pending ≤ n
      → All IsInner pending
      → All (EndsIn keys) pending
      → Left av pending (join_loop n av pending)
  unfolding join_loop
  join_loop-Left zero av [] bound inner ends = stuck-Left av [] tt
  join_loop-Left zero av (e ∷ es) bound inner ends = absurd (omega (arith, bound))
  join_loop-Left (suc n) av pending bound inner ends =
      elim (Option-cases (pop_first (is_joinable av) pending)) [
        | inl e ↦ subst (Left av pending) (sym (join_loop-stuck n av pending e)) (
            stuck-Left av pending
              (All-IsEven av pending inner (unpopped (is_joinable av) pending e)))
        | inr ((e, rest), p) ↦
            let a = added_by av e in
            let (joinable, off) = pop_first_sound (is_joinable av) pending p in
            let (_, inner') = kept_out IsInner e pending rest off inner in
            let (held, ends') = kept_out (EndsIn keys) e pending rest off ends in
            let fewer = length-Removes e pending rest off in
            let left = join_loop-Left n (a ∷ av) rest (omega (arith, fewer)) inner' ends' in
            let later = join_loop n (a ∷ av) rest in
            let (from, to) =
              both_ends av e.relationship e.join_type a ((step_lem av e joinable).0) in
            subst (Left av pending) (sym (join_loop-step n av pending e rest p)) (record {
              even =
                  put_back (IsEven later.available) e pending rest off
                    (left.wider _ from ∙ sym (left.wider _ to)) left.even;
              count = omega (arith, left.count, fewer);
              wider = λ x k. left.wider x (ground (arith, k));
              within = λ f. left.within (λ x k. elim (Bool-cases (str_eq x a)) [
                | inl same ↦
                    subst (λ t. contains t keys ≡ true) (sym ((eq_iff x a).0 same))
                      (added-key av e held)
                | inr other ↦ f x (ground (arith, other, k))
              ]);
            })
      ]
