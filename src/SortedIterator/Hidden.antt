-- ===== src/SortedIterator/Hidden.antt =====
-- What hides an entry from a walk, and what the loop of `FindNextUserEntry` knows of it.
use aha_adaptive_hotspot_awa.Common.{
  ℕ, ◌≡◌, refl, ap, ◌∙◌, List, [], ◌∷◌, Bool, true, false, none, some, leb, not, ◌&&◌, ◌||◌,
  if◌then◌else◌, inl, inr, Bool-cases, arith, Ordering,
}
use aha_adaptive_hotspot_awa.Leveldb.{Leveldb, compare_slices}
use aha_adaptive_hotspot_awa.TreePage.Search.Loop.{Ordering-cases}
use aha_adaptive_hotspot_awa.SortedIterator.{
  ValueType, deletion, value, bad, InternalEntry, at_or_before, judge_kind, judge,
}

module _ ⦃L : Leveldb⦄ where
  abbrev pub same_key : List ℕ → List ℕ → Bool
  same_key a b = at_or_before a b && at_or_before b a

  unfoldable pub is_bad : ValueType → Bool
  is_bad deletion = false
  is_bad value = false
  is_bad bad = true

  unfoldable pub is_value : ValueType → Bool
  is_value deletion = false
  is_value value = true
  is_value bad = false

  abbrev pub visible : ℕ → InternalEntry → Bool
  visible seq_no e = leb e.sequence seq_no && not (is_bad e.kind)

  -- Does one of the entries hide an entry of this key?
  unfoldable pub hidden : ℕ → List InternalEntry → List ℕ → Bool
  hidden seq_no [] k = false
  hidden seq_no (b ∷ bs) k = (visible seq_no b && same_key b.user_key k) || hidden seq_no bs k

  abbrev pub shown : ℕ → List InternalEntry → InternalEntry → Bool
  shown seq_no before e =
      visible seq_no e && is_value e.kind && not (hidden seq_no before e.user_key)

  -- The values that can be seen with no entry of their key that can be seen before them.
  unfoldable pub newest : ℕ → List InternalEntry → List InternalEntry → List InternalEntry
  newest seq_no before [] = []
  newest seq_no before (e ∷ es) =
      let rest = newest seq_no (e ∷ before) es in if shown seq_no before e then e ∷ rest else rest

  unfoldable pub all_from : List ℕ → List InternalEntry → Bool
  all_from k [] = true
  all_from k (e ∷ es) = at_or_before k e.user_key && all_from k es

  unfoldable pub ascending : List InternalEntry → Bool
  ascending [] = true
  ascending (e ∷ es) = all_from e.user_key es && ascending es

  -- What the loop's variables say of the entries that were passed.
  pub data Passed (seq_no : ℕ) (before es : List InternalEntry) : Bool → List ℕ → Type 0 where
    fresh :
        {skip : List ℕ}
        → ((k : List ℕ) → hidden seq_no before k ≡ false)
        → Passed seq_no before es false skip
    behind :
        {skip : List ℕ}
        → all_from skip es ≡ true
        → hidden seq_no before skip ≡ true
        → ((k : List ℕ) → compare_slices k skip ≡ Ordering.gt → hidden seq_no before k ≡ false)
        → Passed seq_no before es true skip

  both_ways : (a b : List ℕ) → at_or_before a b ≡ true → at_or_before b a ≡ true → a ≡ b
  both_ways a b h k = elim (Ordering-cases (compare_slices a b)) [
    | inl lt ↦ absurd (let other = L.compare_lt a b lt in ground (arith, other, k))
    | inr (inl eq) ↦ L.compare_eq a b eq
    | inr (inr gt) ↦ absurd (ground (arith, gt, h))
  ]

  same_self : (k : List ℕ) → same_key k k ≡ true
  same_self k = let own = L.compare_self k in ground (arith, own)

  greater_differs : (k e : List ℕ) → compare_slices k e ≡ Ordering.gt → same_key e k ≡ false
  greater_differs k e h = ground (arith, h)

  far_greater :
      (a b k : List ℕ)
      → at_or_before a b ≡ true
      → compare_slices k b ≡ Ordering.gt
      → compare_slices k a ≡ Ordering.gt
  far_greater a b k le h = elim (Ordering-cases (compare_slices a b)) [
    | inl lt ↦ L.compare_lt _ _ (L.compare_trans a b k lt (L.compare_gt _ _ h))
    | inr (inl eq) ↦ ap (compare_slices k) (L.compare_eq a b eq) ∙ h
    | inr (inr gt) ↦ absurd (ground (arith, gt))
  ]

  -- An entry that can be seen is the one to skip from now on.
  passes_new :
      (seq_no : ℕ) (before es : List InternalEntry) (e : InternalEntry) (skipping : Bool)
      (skip : List ℕ)
      → visible seq_no e ≡ true
      → all_from e.user_key es ≡ true
      → Passed seq_no before (e ∷ es) skipping skip
      → Passed seq_no (e ∷ before) es true e.user_key
  unfolding hidden all_from
  passes_new seq_no before es e false skip seen order (fresh none_) =
      behind order (let own = same_self e.user_key in ground arith)
        λ k h. let other = greater_differs k e.user_key h in let no = none_ k in ground arith
  passes_new seq_no before es e true skip seen order (behind from_ own_ none_) =
      behind order (let own = same_self e.user_key in ground arith) λ k h.
        let other = greater_differs k e.user_key h in
        let no = none_ k (far_greater skip e.user_key k (let f = from_ in ground arith) h) in
        ground arith

  -- An entry that cannot be seen changes nothing.
  passes_unseen :
      (seq_no : ℕ) (before es : List InternalEntry) (e : InternalEntry) (skipping : Bool)
      (skip : List ℕ)
      → visible seq_no e ≡ false
      → Passed seq_no before (e ∷ es) skipping skip
      → Passed seq_no (e ∷ before) es skipping skip
  unfolding hidden all_from
  passes_unseen seq_no before es e false skip unseen (fresh none_) =
      fresh λ k. let no = none_ k in ground arith
  passes_unseen seq_no before es e true skip unseen (behind from_ own_ none_) =
      behind (ground arith) (ground arith) λ k h. let no = none_ k h in ground arith

  -- An entry of the key to skip leaves it.
  passes_hidden :
      (seq_no : ℕ) (before es : List InternalEntry) (e : InternalEntry) (skip : List ℕ)
      → at_or_before e.user_key skip ≡ true
      → Passed seq_no before (e ∷ es) true skip
      → (hidden seq_no before e.user_key ≡ true) × Passed seq_no (e ∷ before) es true skip
  unfolding hidden all_from
  passes_hidden seq_no before es e skip le (behind from_ own_ none_) =
      let same : e.user_key ≡ skip = both_ways e.user_key skip le (ground (arith, from_)) in
      (
        ap (hidden seq_no before) same ∙ own_,
        behind (ground (arith, from_)) (ground (arith, own_)) λ k h.
            let other = greater_differs k e.user_key (ap (compare_slices k) same ∙ h) in
            let no = none_ k h in ground arith,
      )

  -- A key behind the one to skip is not hidden.
  not_hidden :
      (seq_no : ℕ) (before es : List InternalEntry) (e : InternalEntry) (skipping : Bool)
      (skip : List ℕ)
      → (skipping && at_or_before e.user_key skip) ≡ false
      → Passed seq_no before es skipping skip
      → hidden seq_no before e.user_key ≡ false
  not_hidden seq_no before es e false skip h (fresh none_) = none_ e.user_key
  not_hidden seq_no before es e true skip h (behind from_ own_ none_) =
      none_ e.user_key (elim (Ordering-cases (compare_slices e.user_key skip)) [
        | inl lt ↦ absurd (ground (arith, lt, h))
        | inr (inl eq) ↦ absurd (ground (arith, eq, h))
        | inr (inr gt) ↦ gt
      ])

  pub data Judged (seq_no : ℕ) (before es : List InternalEntry) (e : InternalEntry)
      (skipping : Bool) (skip : List ℕ) : Type 0 where
    stops :
        judge seq_no e skipping skip ≡ none
        → shown seq_no before e ≡ true
        → Passed seq_no (e ∷ before) es true e.user_key
        → Judged seq_no before es e skipping skip
    goes_on :
        (skipping' : Bool) (skip' : List ℕ)
        → judge seq_no e skipping skip ≡ some (skipping', skip')
        → shown seq_no before e ≡ false
        → Passed seq_no (e ∷ before) es skipping' skip'
        → Judged seq_no before es e skipping skip

  value-Judged :
      (seq_no : ℕ) (before es : List InternalEntry) (e : InternalEntry) (skipping : Bool)
      (skip : List ℕ)
      → leb e.sequence seq_no ≡ true
      → e.kind ≡ value
      → all_from e.user_key es ≡ true
      → Passed seq_no before (e ∷ es) skipping skip
      → Judged seq_no before es e skipping skip
  unfolding judge judge_kind is_value is_bad
  value-Judged seq_no before es e skipping skip seen kind order p =
      elim (Bool-cases (skipping && at_or_before e.user_key skip)) [
        | inl hides ↦ value_hides seq_no before es e skipping skip seen kind hides p
        | inr new ↦
            let no = not_hidden seq_no before (e ∷ es) e skipping skip new p in
            let visible_ : visible seq_no e ≡ true = rw (seen, kind) refl in
            stops (rw (seen, kind, new) refl) (rw (seen, kind, no) refl)
              (passes_new seq_no before es e skipping skip visible_ order p)
      ]
    where
      value_hides :
          (seq_no : ℕ) (before es : List InternalEntry) (e : InternalEntry) (skipping : Bool)
          (skip : List ℕ)
          → leb e.sequence seq_no ≡ true
          → e.kind ≡ value
          → (skipping && at_or_before e.user_key skip) ≡ true
          → Passed seq_no before (e ∷ es) skipping skip
          → Judged seq_no before es e skipping skip
      value_hides seq_no before es e false skip seen kind hides p = absurd (cc)
      value_hides seq_no before es e true skip seen kind hides p =
          let (yes_, p') = passes_hidden seq_no before es e skip hides p in
          goes_on true skip (rw (seen, kind, hides) refl) (rw (seen, kind, yes_) refl) p'

  kind-Judged :
      (seq_no : ℕ) (before es : List InternalEntry) (e : InternalEntry) (skipping : Bool)
      (skip : List ℕ) (kind : ValueType)
      → leb e.sequence seq_no ≡ true
      → e.kind ≡ kind
      → all_from e.user_key es ≡ true
      → Passed seq_no before (e ∷ es) skipping skip
      → Judged seq_no before es e skipping skip
  unfolding judge judge_kind is_value is_bad
  kind-Judged seq_no before es e skipping skip value seen kind order p =
      value-Judged seq_no before es e skipping skip seen kind order p
  kind-Judged seq_no before es e skipping skip deletion seen kind order p =
      goes_on true e.user_key (rw (seen, kind) refl) (rw (seen, kind) refl)
        (passes_new seq_no before es e skipping skip (rw (seen, kind) refl) order p)
  kind-Judged seq_no before es e skipping skip bad seen kind order p =
      goes_on skipping skip (rw (seen, kind) refl) (rw (seen, kind) refl)
        (passes_unseen seq_no before es e skipping skip (rw (seen, kind) refl) p)

  pub judge_lem :
      (seq_no : ℕ) (before es : List InternalEntry) (e : InternalEntry) (skipping : Bool)
      (skip : List ℕ)
      → all_from e.user_key es ≡ true
      → Passed seq_no before (e ∷ es) skipping skip
      → Judged seq_no before es e skipping skip
  unfolding judge
  judge_lem seq_no before es e skipping skip order p = elim (Bool-cases (leb e.sequence seq_no)) [
    | inl seen ↦ kind-Judged seq_no before es e skipping skip e.kind seen refl order p
    | inr unseen ↦
        goes_on skipping skip (rw (unseen) refl) (rw (unseen) refl)
          (passes_unseen seq_no before es e skipping skip (rw (unseen) refl) p)
  ]
