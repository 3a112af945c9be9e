-- ===== src/Actions/Lifecycle/Dedupe.antt =====
-- `_dedupe_notifications`
use queryops_ai.Prelude.{
  Bool, true, not, ◌&&◌, ◌||◌, List, [], ◌∷◌, any, ◌≡◌, refl, ◌∙◌, arith, eq_iff, Bool-cases, inl,
  inr,
}
use queryops_ai.Actions.Rows.{Notification}
use queryops_ai.Actions.Lifecycle.Complete.{same_key, place, place_all, dedupe_notifications}

-- No two of the notifications tell the same user the same of the same resource.
abbrev pub no_two : List Notification → Bool
no_two [] = true
no_two (n ∷ ns) = not (any (same_key n) ns) && no_two ns

same_key-left : (m n x : Notification) → same_key m n ≡ true → same_key m x ≡ same_key n x
same_key-left m n x h = ground (arith, eq_iff m.notification_type n.notification_type)

same_key-right : (k m n : Notification) → same_key m n ≡ true → same_key k m ≡ same_key k n
same_key-right k m n h = ground (arith, eq_iff m.notification_type n.notification_type)

any-place :
    (k n : Notification) (ms : List Notification)
    → any (same_key k) (place n ms) ≡ (same_key k n || any (same_key k) ms)
unfolding place
any-place k n [] = ground arith
any-place k n (m ∷ ms) = elim (Bool-cases (same_key m n)) [
  | inl same ↦ rw (same, same_key-right k m n same) (ground arith)
  | inr other ↦ rw other (ground (arith, any-place k n ms))
]

any-congruent :
    (m n : Notification) (xs : List Notification)
    → same_key m n ≡ true
    → any (same_key m) xs ≡ any (same_key n) xs
any-congruent m n [] h = refl
any-congruent m n (x ∷ xs) h = rw (same_key-left m n x h, any-congruent m n xs h) refl

place-no_two :
    (n : Notification) (ms : List Notification) → no_two ms ≡ true → no_two (place n ms) ≡ true
unfolding place
place-no_two n [] h = refl
place-no_two n (m ∷ ms) h = elim (Bool-cases (same_key m n)) [
  | inl same ↦ rw same (ground (arith, any-congruent m n ms same))
  | inr other ↦ rw other (ground (arith, any-place m n ms, place-no_two n ms))
]

place_all-no_two :
    (ns placed : List Notification) → no_two placed ≡ true → no_two (place_all ns placed) ≡ true
unfolding place_all
place_all-no_two [] placed h = h
place_all-no_two (n ∷ ns) placed h = place_all-no_two ns (place n placed) (place-no_two n placed h)

any-place_all :
    (k : Notification) (ns placed : List Notification)
    → any (same_key k) (place_all ns placed) ≡ (any (same_key k) ns || any (same_key k) placed)
unfolding place_all
any-place_all k [] placed = refl
any-place_all k (n ∷ ns) placed =
    any-place_all k ns (place n placed) ∙ ground (arith, any-place k n placed)

-- Deduplication keeps one notification of each recipient, type and resource: no two of the result
-- agree in all three, and each combination of the input is there, and no other.
pub dedupe_notifications-exact :
    (items : List Notification) (k : Notification)
    → (no_two (dedupe_notifications items) ≡ true)
      × (any (same_key k) (dedupe_notifications items) ≡ any (same_key k) items)
unfolding dedupe_notifications
dedupe_notifications-exact items k =
    (place_all-no_two items [] refl, any-place_all k items [] ∙ ground arith)
