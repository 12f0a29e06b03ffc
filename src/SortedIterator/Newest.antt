-- ===== src/SortedIterator/Newest.antt =====
-- `SortedTreeIterator` of src/wot_index.cc: the entries that a walk shows.
use aha_adaptive_hotspot_awa.Common.{
  ℕ, zero, suc, ◌<◌, ◌≡◌, refl, ap, ◌∙◌, List, [], ◌∷◌, length, Bool, true, false, none, some, leb,
  not, ◌&&◌, arith,
}
use aha_adaptive_hotspot_awa.Leveldb.{Leveldb}
use aha_adaptive_hotspot_awa.SortedIterator.{
  ValueType, deletion, value, bad, InternalEntry, at_or_before, judge_kind, judge,
  find_next_user_entry, standing, seek_both_ends, current_entry, next_of, next_user_entry, collect,
}
use aha_adaptive_hotspot_awa.SortedIterator.Ranked.{
  in_order, newest_among, in_order-ascending, newest-ranked,
}
use aha_adaptive_hotspot_awa.SortedIterator.Hidden.{
  is_value, hidden, shown, newest, ascending, Passed, fresh, stops, goes_on, judge_lem,
}

module _ ⦃L : Leveldb⦄ where
  -- Where the loop stops.
  data Found (seq_no : ℕ) (before es found : List InternalEntry) : Type 0 where
    at_end : found ≡ [] → newest seq_no before es ≡ [] → Found seq_no before es found
    at_entry :
        (e : InternalEntry) (es' before' : List InternalEntry)
        → found ≡ e ∷ es'
        → newest seq_no before es ≡ e ∷ newest seq_no before' es'
        → Passed seq_no before' es' true e.user_key
        → ascending es' ≡ true
        → length es' < length es
        → Found seq_no before es found

  found_behind :
      (seq_no : ℕ) (before es : List InternalEntry) (e : InternalEntry) (skipping : Bool)
      (skip : List ℕ) (skipping' : Bool) (skip' : List ℕ)
      → judge seq_no e skipping skip ≡ some (skipping', skip')
      → shown seq_no before e ≡ false
      → Found seq_no (e ∷ before) es (find_next_user_entry seq_no es skipping' skip')
      → Found seq_no before (e ∷ es) (find_next_user_entry seq_no (e ∷ es) skipping skip)
  unfolding find_next_user_entry newest
  found_behind seq_no before es e skipping skip skipping' skip' done no_ (at_end f n) =
      at_end (rw (find_next_user_entry, done) f) (rw (newest, no_) n)
  found_behind seq_no before es e skipping skip skipping' skip' done no_
        (at_entry e' es' before' f n p order small) =
      at_entry e' es' before' (rw (find_next_user_entry, done) f) (rw (newest, no_) n) p order
        (omega arith)

  find_next_lem :
      (seq_no : ℕ) (before es : List InternalEntry) (skipping : Bool) (skip : List ℕ)
      → ascending es ≡ true
      → Passed seq_no before es skipping skip
      → Found seq_no before es (find_next_user_entry seq_no es skipping skip)
  unfolding find_next_user_entry newest ascending
  find_next_lem seq_no before [] skipping skip order p = at_end refl refl
  find_next_lem seq_no before (e ∷ es) skipping skip order p =
      elim (judge_lem seq_no before es e skipping skip (ground arith) p) [
        | stops done yes_ p' ↦
            at_entry e es (e ∷ before) (rw (find_next_user_entry, done) refl)
              (rw (newest, yes_) refl) p' (ground arith) (omega arith)
        | goes_on skipping' skip' done no_ p' ↦
            found_behind seq_no before es e skipping skip skipping' skip' done no_
              (find_next_lem seq_no (e ∷ before) es skipping' skip' (ground arith) p')
      ]

  collect_on :
      (seq_no fuel : ℕ) (e : InternalEntry) (es rest : List InternalEntry)
      → collect seq_no fuel (standing (find_next_user_entry seq_no es true e.user_key) false)
        ≡ some rest
      → collect seq_no (suc fuel) (standing (e ∷ es) false) ≡ some (e ∷ rest)
  unfolding collect current_entry next_user_entry next_of
  collect_on seq_no fuel e es rest h = rw (h) refl

  walk :
      (seq_no fuel : ℕ) (before es : List InternalEntry) (skipping : Bool) (skip : List ℕ)
      → ascending es ≡ true
      → Passed seq_no before es skipping skip
      → length es < fuel
      → collect seq_no fuel (standing (find_next_user_entry seq_no es skipping skip) false)
        ≡ some (newest seq_no before es)
  unfolding collect
  walk seq_no zero before es skipping skip order p enough = absurd (omega arith)
  walk seq_no (suc fuel) before es skipping skip order p enough =
      elim (find_next_lem seq_no before es skipping skip order p) [
        | at_end f n ↦ rw (f, n) refl
        | at_entry e es' before' f n p' order' small ↦
            rw (f, n)
              (collect_on seq_no fuel e es' _
                (walk seq_no fuel before' es' true e.user_key order' p' (omega arith)))
      ]

  -- In entries in the order of their user keys, and under one user key by falling sequence numbers, a
  -- walk from a seek on shows exactly those that can be seen, are values, and have no entry that can
  -- be seen with their user key and a larger sequence number, if its fuel exceeds the number of the
  -- entries. An entry can be seen if it parses and its sequence number is not above that of the walk.
  pub collect-newest :
      (seq_no : ℕ) (low : List ℕ) (es : List InternalEntry) (fuel : ℕ)
      → in_order es ≡ true
      → length es < fuel
      → collect seq_no fuel (seek_both_ends seq_no low es false) ≡ some (newest_among seq_no es es)
  unfolding seek_both_ends hidden
  collect-newest seq_no low es fuel order enough =
      walk seq_no fuel [] es false low (in_order-ascending es order) (fresh (λ k. refl)) enough
      ∙ ap some (newest-ranked seq_no es order)

  unfoldable pub all_behind : List ℕ → List InternalEntry → Bool
  all_behind k [] = true
  all_behind k (e ∷ es) = not (at_or_before e.user_key k) && all_behind k es

  -- Values that can be seen, each with a key behind the last one: what the pages have.
  unfoldable pub plain : ℕ → List InternalEntry → Bool
  plain seq_no [] = true
  plain seq_no (e ∷ es) =
      leb e.sequence seq_no && is_value e.kind && all_behind e.user_key es && plain seq_no es

  judge_plain :
      (seq_no : ℕ) (e : InternalEntry) (skipping : Bool) (skip : List ℕ)
      → leb e.sequence seq_no ≡ true
      → is_value e.kind ≡ true
      → (skipping && at_or_before e.user_key skip) ≡ false
      → judge seq_no e skipping skip ≡ none
  unfolding judge judge_kind is_value
  judge_plain seq_no e skipping skip seen val new = rw (judge, seen) (of_kind e.kind val)
    where
      of_kind :
          (kind : ValueType)
          → is_value kind ≡ true
          → judge_kind kind e.user_key skipping skip ≡ none
      of_kind deletion h = absurd (cc)
      of_kind value h = rw (judge_kind, new) refl
      of_kind bad h = absurd (cc)

  find_plain :
      (seq_no : ℕ) (es : List InternalEntry) (skipping : Bool) (skip : List ℕ)
      → plain seq_no es ≡ true
      → (skipping ≡ true → all_behind skip es ≡ true)
      → find_next_user_entry seq_no es skipping skip ≡ es
  unfolding find_next_user_entry plain all_behind
  find_plain seq_no [] skipping skip h order = refl
  find_plain seq_no (e ∷ es) false skip h order =
      rw (find_next_user_entry, judge_plain seq_no e false skip (ground arith) (ground arith) refl)
        refl
  find_plain seq_no (e ∷ es) true skip h order =
      let apart = order refl in
      rw
        (
          find_next_user_entry,
          judge_plain seq_no e true skip (ground arith) (ground arith) (ground arith),
        )
        refl

  walk_plain :
      (seq_no fuel : ℕ) (es : List InternalEntry) (all : Bool)
      → plain seq_no es ≡ true
      → length es < fuel
      → collect seq_no fuel (standing es all) ≡ some es
  unfolding collect current_entry next_user_entry next_of plain
  walk_plain seq_no zero es all h enough = absurd (omega arith)
  walk_plain seq_no (suc fuel) [] all h enough = refl
  walk_plain seq_no (suc fuel) (e ∷ es) true h enough =
      rw (walk_plain seq_no fuel es true (ground arith) (omega arith)) refl
  walk_plain seq_no (suc fuel) (e ∷ es) false h enough =
      rw
        (
          find_plain seq_no es true e.user_key (ground arith) (λ z. ground arith),
          walk_plain seq_no fuel es false (ground arith) (omega arith),
        )
        refl

  -- Where the merged entries are all values that can be seen, in strictly ascending order of
  -- their keys, the short way of `Next` for pages and the long way show the same: all of them.
  pub collect-plain :
      (seq_no : ℕ) (low : List ℕ) (es : List InternalEntry) (fuel : ℕ) (all : Bool)
      → plain seq_no es ≡ true
      → length es < fuel
      → collect seq_no fuel (seek_both_ends seq_no low es all) ≡ some es
  unfolding seek_both_ends
  collect-plain seq_no low es fuel all h enough =
      rw (find_plain seq_no es false low h (λ z. absurd (cc)))
        (walk_plain seq_no fuel es all h enough)
