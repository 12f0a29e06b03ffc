-- ===== src/SortedIterator.antt =====
-- src/wot_index.cc, `SortedTreeIterator`: the walk over the merged entries of a tree. The merging
-- iterator is the list of the entries at and behind its position, and a walk sees one sequence number.
-- The sampling of reads is not modelled. `saved_key_` is an argument: it is written before each use.
pub mod Hidden
pub mod Ranked
pub mod Newest
use aha_adaptive_hotspot_awa.Common.{
  ℕ, zero, suc, List, [], ◌∷◌, Bool, true, false, Option, none, some, ◌>>=◌, leb, not, ◌&&◌, ◌||◌,
  if◌then◌else◌,
}
use aha_adaptive_hotspot_awa.Leveldb.{Leveldb, compare_slices}
use aha_adaptive_hotspot_awa.TreePage.Update.{is_gt}

-- `bad` is a key that `ParseInternalKey` refuses.
pub data ValueType : Type 0 where
  deletion : ValueType
  value : ValueType
  bad : ValueType

pub record InternalEntry : Type 0 where
  pub user_key : List ℕ
  pub sequence : ℕ
  pub kind : ValueType
  pub content : List ℕ

pub record SortedTreeIterator : Type 0 where
  pub inner_iter : List InternalEntry
  pub is_valid : Bool
  pub all_page : Bool

module _ ⦃L : Leveldb⦄ where
  -- Is the key at or before the key to skip?
  abbrev pub at_or_before : List ℕ → List ℕ → Bool
  at_or_before k skip = not (is_gt (compare_slices k skip))

  -- What the loop does with an entry that can be seen: `none` stops at it, and a pair goes on.
  unfoldable pub judge_kind : ValueType → List ℕ → Bool → List ℕ → Option (Bool × List ℕ)
  judge_kind deletion k skipping skip = some (true, k)
  judge_kind value k skipping skip =
      if skipping && at_or_before k skip then some (skipping, skip) else none
  judge_kind bad k skipping skip = some (skipping, skip)

  unfoldable pub judge : ℕ → InternalEntry → Bool → List ℕ → Option (Bool × List ℕ)
  judge seq_no e skipping skip =
      if leb e.sequence seq_no
      then judge_kind e.kind e.user_key skipping skip
      else some (skipping, skip)

  -- `FindNextUserEntry`: the entries from the one it stops at.
  unfoldable pub find_next_user_entry : ℕ → List InternalEntry → Bool → List ℕ → List InternalEntry
  find_next_user_entry seq_no [] skipping skip = []
  find_next_user_entry seq_no (e ∷ es) skipping skip = elim (judge seq_no e skipping skip) [
    | none ↦ e ∷ es
    | some (skipping', skip') ↦ find_next_user_entry seq_no es skipping' skip'
  ]

  abbrev pub standing : List InternalEntry → Bool → SortedTreeIterator
  standing [] all = record { inner_iter = []; is_valid = false; all_page = all }
  standing (e ∷ es) all = record { inner_iter = e ∷ es; is_valid = true; all_page = all }

  -- `SeekBothEnds`, given the entries that the merging iterator has from the low end on.
  unfoldable pub seek_both_ends : ℕ → List ℕ → List InternalEntry → Bool → SortedTreeIterator
  seek_both_ends seq_no low entries all =
      standing (find_next_user_entry seq_no entries false low) all

  -- The entry at which the iterator stands.
  unfoldable pub current_entry : List InternalEntry → Option InternalEntry
  current_entry [] = none
  current_entry (e ∷ es) = some e

  -- `Next` behind its assertion.
  unfoldable pub next_of : ℕ → List InternalEntry → Bool → Option SortedTreeIterator
  next_of seq_no [] all = none
  next_of seq_no (e ∷ es) all =
      some (standing (if all then es else find_next_user_entry seq_no es true e.user_key) all)

  unfoldable pub next_user_entry : ℕ → SortedTreeIterator → Option SortedTreeIterator
  next_user_entry seq_no it = if it.is_valid then next_of seq_no it.inner_iter it.all_page else none

  -- The client's loop, over fuel: the entries that are shown.
  unfoldable pub collect : ℕ → ℕ → SortedTreeIterator → Option (List InternalEntry)
  collect seq_no zero it = none
  collect seq_no (suc fuel) it =
      if it.is_valid
      then (do
        e ← current_entry it.inner_iter
        it' ← next_user_entry seq_no it
        rest ← collect seq_no fuel it'
        some (e ∷ rest))
      else some []
