-- ===== src/PageWriter.antt =====
-- src/util/utils.h, `CountNonDuplicates` and `WriteToPage`: the entries of an iterator are written to
-- new leaf pages. The iterator is the list of its entries.
-- Taken as parameters: the split of an internal key (`ParseInternalKey`, `ExtractUserKey`) and the
-- comparator's test of user keys. Pins are left out; the pages get numbers in order.
pub mod Kept
pub mod Split
use aha_adaptive_hotspot_awa.Common.{
  ℕ, ◌+◌, ◌*◌, List, [], ◌∷◌, length, Bool, true, false, not, ◌||◌, ◌&&◌, ltb, ◌==◌, if◌then◌else◌,
  Option, none, some, ◌>>=◌,
}
use aha_adaptive_hotspot_awa.Leveldb.{Leveldb}
use aha_adaptive_hotspot_awa.TreePage.Layout.{Page, page_init}
use aha_adaptive_hotspot_awa.TreePage.Insert.{page_append_leaf_entry}

-- `ParsedInternalKey`
pub record ParsedKey : Type 0 where
  pub user_key : List ℕ
  pub sequence : ℕ
  pub is_deletion : Bool

-- What the two functions take from the vendored sources.
pub record KeyFormat : Type 0 where
  pub parse : List ℕ → Option ParsedKey
  pub extract_user_key : List ℕ → List ℕ
  pub same_user_key : List ℕ → List ℕ → Bool

abbrev pub Entry : Type 0
Entry = List ℕ × List ℕ

-- `kMaxSequenceNumber`, (1 << 56) - 1
abbrev pub max_sequence : ℕ
max_sequence = 72057594037927935

-- `current_user_key` if there is one, and `last_sequence_for_key`.
pub record Scan : Type 0 where
  pub current : Option (List ℕ)
  pub last_sequence : ℕ

abbrev pub scan_start : Scan
scan_start = record { current = none; last_sequence = max_sequence }

-- `CountNonDuplicates`: the scan behind a key that parsed, and whether its entry is dropped.
abbrev pub count_parsed : KeyFormat → Scan → ParsedKey → Scan × Bool
count_parsed f s k =
    let begins : Bool = elim s.current [
      | none ↦ true
      | some u ↦ not (f.same_user_key k.user_key u)
    ] in
    let last = if begins then max_sequence else s.last_sequence in
    (
      record {
        current = if begins then some k.user_key else s.current;
        last_sequence = k.sequence;
      },
      ltb last max_sequence || k.is_deletion,
    )

unfoldable pub count_step : KeyFormat → Scan → List ℕ → Scan × Bool
count_step f s key = elim (f.parse key) [ none ↦ (scan_start, false) | some k ↦ count_parsed f s k ]

-- The same of the loop of `WriteToPage`, which has its own copy of the test.
abbrev pub write_parsed : KeyFormat → Scan → ParsedKey → Scan × Bool
write_parsed f s k =
    let begins : Bool = elim s.current [
      | none ↦ true
      | some u ↦ not (f.same_user_key k.user_key u)
    ] in
    let last = if begins then max_sequence else s.last_sequence in
    (
      record {
        current = if begins then some k.user_key else s.current;
        last_sequence = k.sequence;
      },
      ltb last max_sequence || k.is_deletion,
    )

unfoldable pub write_step : KeyFormat → Scan → List ℕ → Scan × Bool
write_step f s key = elim (f.parse key) [ none ↦ (scan_start, false) | some k ↦ write_parsed f s k ]

unfoldable pub count_from : KeyFormat → Scan → List Entry → ℕ
count_from f s [] = 0
count_from f s (e ∷ es) =
    let (next, drop) = count_step f s e.0 in
    let rest = count_from f next es in if drop then rest else rest + 1

-- The first size that is not 0.
unfoldable pub first_size : List (List ℕ) → ℕ
first_size [] = 0
first_size (x ∷ xs) = let rest = first_size xs in if length x == 0 then rest else length x

unfoldable pub keys : List Entry → List (List ℕ)
keys [] = []
keys (e ∷ es) = e.0 ∷ keys es

unfoldable pub values : List Entry → List (List ℕ)
values [] = []
values (e ∷ es) = e.1 ∷ values es

-- The count, the size of keys and the size of values.
abbrev pub count_non_duplicates : KeyFormat → List Entry → ℕ × ℕ × ℕ
count_non_duplicates f es =
    (count_from f scan_start es, first_size (keys es), first_size (values es))

-- `PageSplitPolicy`: `Init` at sizes and a count, and `ShouldAllocPage`; `none` is a failed assertion
-- or a division by 0.
pub record SplitPolicy (S : Type 0) : Type 0 where
  pub init : ℕ → ℕ → ℕ → Option S
  pub should_alloc : ℕ → S → Option (S × Bool)

-- The loop's state: the policy's, `page_item`, the open page with its pivot, and the pages behind.
pub record Writer (S : Type 0) : Type 0 where
  pub policy : S
  pub page_item : ℕ
  pub open_page : Option (List ℕ × Page)
  pub written : List (List ℕ × Page)

-- `frames` are the frames that `Allocate` hands out, before `PageInit`.
module _ {S : Type 0} (f : KeyFormat) (p : SplitPolicy S) (frames : ℕ → Page) where
  -- `new_pg_id == 0 || policy->ShouldAllocPage(page_item)`
  unfoldable pub ask_page : Writer S → Option (S × Bool)
  ask_page w = elim w.open_page [
    | none ↦ some (w.policy, true)
    | some _ ↦ p.should_alloc w.page_item w.policy
  ]

  -- The open page joins those behind it.
  unfoldable pub close_page : Writer S → List (List ℕ × Page)
  close_page w = elim w.open_page [ none ↦ w.written | some pg ↦ pg ∷ w.written ]

  unfoldable pub fresh_page : ℕ → Page
  fresh_page number = record (page_init (frames number) number) { is_leaf = true }

  unfoldable pub take_page : Writer S → List ℕ → S × Bool → Writer S
  unfolding close_page fresh_page
  take_page w key (s, alloc) =
      if alloc
      then record {
        policy = s;
        page_item = 0;
        open_page = some (f.extract_user_key key, fresh_page (length (close_page w) + 1));
        written = close_page w;
      }
      else record w { policy = s }

  unfoldable pub append_entry : ⦃L : Leveldb⦄ → Entry → Writer S → Option (Writer S)
  append_entry e w = elim w.open_page [
    | none ↦ none
    | some pg ↦ (do
      page ← page_append_leaf_entry pg.1 e.0 e.1
      some (record w { page_item = w.page_item + 1; open_page = some (pg.0, page) }))
  ]

  unfoldable pub write_entry : ⦃L : Leveldb⦄ → Writer S → Entry → Option (Writer S)
  unfolding ask_page take_page append_entry
  write_entry w e = do answer ← ask_page w; append_entry e (take_page w e.0 answer)

  unfoldable pub write_from : ⦃L : Leveldb⦄ → Scan → Writer S → List Entry → Option (Writer S)
  unfolding write_entry
  write_from s w [] = some w
  write_from s w (e ∷ es) =
      let (next, drop) = write_step f s e.0 in
      let skipped = write_from next w es in
      if drop then skipped else (write_entry w e >>= λ w'. write_from next w' es)

  -- The pages with their pivots, the last one first.
  unfoldable pub write_to_page : ⦃L : Leveldb⦄ → List Entry → Option (List (List ℕ × Page))
  unfolding write_from close_page
  write_to_page es =
      let (non_dup, key_size, val_size) = count_non_duplicates f es in
      if ltb 0 key_size && ltb 0 val_size
      then (do
        s ← p.init key_size val_size non_dup
        w ←
            write_from scan_start
              (record { policy = s; page_item = 0; open_page = none; written = [] }) es
        some (close_page w))
      else none
