-- ===== src/SortedIterator/Ranked.antt =====
-- Entries in the order of the internal keys of LevelDB (src/leveldb/dbformat.cc): by their user
-- keys, and those of one user key by falling sequence numbers.
use aha_adaptive_hotspot_awa.Common.{
  ℕ, ◌≡◌, refl, List, [], ◌∷◌, Bool, true, false, ltb, not, ◌&&◌, ◌||◌, if◌then◌else◌, inl, inr,
  arith,
}
use aha_adaptive_hotspot_awa.Leveldb.{Leveldb, compare_slices}
use aha_adaptive_hotspot_awa.TreePage.Search.Loop.{Ordering-cases}
use aha_adaptive_hotspot_awa.SortedIterator.{InternalEntry, at_or_before}
use aha_adaptive_hotspot_awa.SortedIterator.Hidden.{
  same_key, is_value, visible, hidden, newest, all_from, ascending,
}

module _ ⦃L : Leveldb⦄ where
  -- The entry has a smaller key, or the same key and a larger sequence number.
  abbrev pub comes_before : InternalEntry → InternalEntry → Bool
  comes_before a b =
      not (at_or_before b.user_key a.user_key)
      || (same_key a.user_key b.user_key && ltb b.sequence a.sequence)

  unfoldable pub before_all : InternalEntry → List InternalEntry → Bool
  before_all a [] = true
  before_all a (b ∷ bs) = comes_before a b && before_all a bs

  unfoldable pub in_order : List InternalEntry → Bool
  unfolding before_all
  in_order [] = true
  in_order (e ∷ es) = before_all e es && in_order es

  -- Has one of the entries that can be seen the same key and a larger sequence number?
  unfoldable pub outranked : ℕ → List InternalEntry → InternalEntry → Bool
  outranked seq_no [] e = false
  outranked seq_no (b ∷ bs) e =
      (visible seq_no b && same_key b.user_key e.user_key && ltb e.sequence b.sequence)
      || outranked seq_no bs e

  -- Those of the entries that can be seen, are values, and that none of `all` outranks.
  unfoldable pub newest_among : ℕ → List InternalEntry → List InternalEntry → List InternalEntry
  unfolding outranked
  newest_among seq_no all [] = []
  newest_among seq_no all (e ∷ es) =
      let rest = newest_among seq_no all es in
      if visible seq_no e && is_value e.kind && not (outranked seq_no all e) then e ∷ rest else rest

  before_at :
      (a b : InternalEntry) → comes_before a b ≡ true → at_or_before a.user_key b.user_key ≡ true
  before_at a b h = elim (Ordering-cases (compare_slices a.user_key b.user_key)) [
    | inl lt ↦ ground (arith, lt)
    | inr (inl eq) ↦ ground (arith, eq)
    | inr (inr gt) ↦ (let other = L.compare_gt _ _ gt in ground (arith, gt, other, h))
  ]

  before_all-from :
      (a : InternalEntry) (es : List InternalEntry)
      → before_all a es ≡ true
      → all_from a.user_key es ≡ true
  unfolding before_all all_from
  before_all-from a [] h = refl
  before_all-from a (b ∷ bs) h =
      let here = before_at a b (ground (arith, h)) in
      let rest = before_all-from a bs (ground (arith, h)) in ground (arith, here, rest)

  pub in_order-ascending : (es : List InternalEntry) → in_order es ≡ true → ascending es ≡ true
  unfolding in_order ascending
  in_order-ascending [] h = refl
  in_order-ascending (e ∷ es) h =
      let here = before_all-from e es (ground (arith, h)) in
      let rest = in_order-ascending es (ground (arith, h)) in ground (arith, here, rest)

  -- Each of the first entries comes before all of the others.
  unfoldable all_passed : List InternalEntry → List InternalEntry → Bool
  unfolding before_all
  all_passed [] es = true
  all_passed (b ∷ bs) es = before_all b es && all_passed bs es

  passed_on :
      (before es : List InternalEntry) (e : InternalEntry)
      → all_passed before (e ∷ es) ≡ true
      → all_passed before es ≡ true
  unfolding all_passed before_all
  passed_on [] es e h = refl
  passed_on (b ∷ bs) es e h =
      let rest = passed_on bs es e (ground (arith, h)) in ground (arith, h, rest)

  hidden-outranked :
      (seq_no : ℕ) (before es : List InternalEntry) (e : InternalEntry)
      → all_passed before (e ∷ es) ≡ true
      → hidden seq_no before e.user_key ≡ outranked seq_no before e
  unfolding hidden outranked all_passed before_all
  hidden-outranked seq_no [] es e h = refl
  hidden-outranked seq_no (b ∷ bs) es e h =
      let rest = hidden-outranked seq_no bs es e (ground (arith, h)) in
      let first : comes_before b e ≡ true = ground (arith, h) in ground (arith, rest, first)

  not_outranked :
      (seq_no : ℕ) (es : List InternalEntry) (e : InternalEntry)
      → before_all e es ≡ true
      → outranked seq_no es e ≡ false
  unfolding outranked before_all
  not_outranked seq_no [] e h = refl
  not_outranked seq_no (b ∷ bs) e h =
      let rest = not_outranked seq_no bs e (ground (arith, h)) in
      let first : comes_before e b ≡ true = ground (arith, h) in ground (arith, rest, first)

  split_first : (a x b c : Bool) → a ≡ (b || (x || c)) → a ≡ ((x || b) || c)
  split_first a x b c h = ground (arith, h)

  -- What is behind an entry of its key does not outrank it, so what was before hides it alone.
  newest_ranked :
      (seq_no : ℕ) (all before es : List InternalEntry)
      → ((e : InternalEntry)
          → outranked seq_no all e ≡ (outranked seq_no before e || outranked seq_no es e))
      → all_passed before es ≡ true
      → in_order es ≡ true
      → newest seq_no before es ≡ newest_among seq_no all es
  unfolding newest newest_among outranked all_passed before_all in_order
  newest_ranked seq_no all before [] whole passed order = refl
  newest_ranked seq_no all before (e ∷ es) whole passed order =
      let behind : before_all e es ≡ true = ground (arith, order) in
      let rest =
        newest_ranked seq_no all (e ∷ before) es
          (λ d.
            split_first (outranked seq_no all d)
              (visible seq_no e && same_key e.user_key d.user_key && ltb d.sequence e.sequence)
              (outranked seq_no before d) (outranked seq_no es d) (whole d))
          (ground (arith, behind, passed_on before es e passed)) (ground (arith, order)) in
      let none_behind = not_outranked seq_no es e behind in
      let hides = hidden-outranked seq_no before es e passed in
      let split = whole e in
      let same : hidden seq_no before e.user_key ≡ outranked seq_no all e =
        ground (arith, split, none_behind, hides) in
      rw (same, rest) refl

  pub newest-ranked :
      (seq_no : ℕ) (es : List InternalEntry)
      → in_order es ≡ true
      → newest seq_no [] es ≡ newest_among seq_no es es
  unfolding outranked all_passed
  newest-ranked seq_no es order = newest_ranked seq_no es [] es (λ e. refl) refl order
