-- ===== src/TreeState/Found.antt =====
-- `NewIterator` of src/wot_adapt_strategy/wot_state.cc beside what the memtables and trees have. Their
-- contents are not modelled: they are a test on keys for each, of which the flags of the index tell.
use aha_adaptive_hotspot_awa.Common.{
  ℕ, ◌<◌, ◌≡◌, ◌≢◌, ◌⊎◌, refl, inl, inr, Bool, true, false, not, ◌&&◌, ◌||◌, Option, none, some,
  List, [], ◌∷◌, Ordering, arith, has, Bool-cases,
}
use aha_adaptive_hotspot_awa.Leveldb.{Leveldb, compare_slices}
use aha_adaptive_hotspot_awa.WorkQueue.{PriorityQueue}
use aha_adaptive_hotspot_awa.TreePage.Update.{is_gt}
use aha_adaptive_hotspot_awa.TreePage.Search.Loop.{Ordering-cases}
use aha_adaptive_hotspot_awa.Btree.Overflow.{is_lt}
use aha_adaptive_hotspot_awa.Btree.Descent.{IsTree}
use aha_adaptive_hotspot_awa.TreeState.{
  Lsmt, StateKind, BplusTree, RangeScan, is_empty, nonempty_level, hotspot_in, is_read, page_lock,
  range_within_hotspot, new_iterator,
}
use aha_adaptive_hotspot_awa.TreeState.Children.{IsInRange, below_at_most}
use aha_adaptive_hotspot_awa.TreeState.Locks.{IsQuiet}
use aha_adaptive_hotspot_awa.TreeState.Pending.{tree_size}
use aha_adaptive_hotspot_awa.TreeState.Seen.{reads_some, reads, Below}
use aha_adaptive_hotspot_awa.TreeState.Front.{is_mem, is_imm, is_lsmt, mem_read, imm_read}
use aha_adaptive_hotspot_awa.TreeState.Whole.{has_page, Reads, new_iterator_lem}

-- Which keys the memtables, the root's log-structured tree and the nodes' trees have.
pub record Contents : Type 0 where
  pub mem_has : List ℕ → Bool
  pub imm_has : List ℕ → Bool
  pub lsmt_has : List ℕ → Bool
  pub node_has : ℕ → List ℕ → Bool

must_read :
    (nothing hot cold has : Bool)
    → (nothing ≡ true → has ≡ false)
    → (cold ≡ true → hot ≡ true → has ≡ false)
    → has ≡ true
    → (nothing ≡ false) × ((hot && cold) ≡ false)
must_read true hot cold has empty chilled e = absurd (let h = empty refl in cc)
must_read false false cold has empty chilled e = (refl, refl)
must_read false true true has empty chilled e = absurd (let h = chilled refl refl in cc)
must_read false true false has empty chilled e = (refl, refl)

module _ ⦃L : Leveldb⦄ where
  -- Does the key lie in the hotspot? With no hot keys all keys do.
  abbrev pub is_hot_key : {Q : Type 0} → BplusTree Q → List ℕ → Bool
  is_hot_key t key =
      (is_empty t.low_hot_key && is_empty t.up_hot_key)
      || (not (is_lt (compare_slices key t.low_hot_key))
          && not (is_gt (compare_slices key t.up_hot_key)))

  -- The flags of the index are right for a key.
  pub record Flags {Q : Type 0} (t : BplusTree Q) (c : Contents) (key : List ℕ) : Type 0 where
    pub mem_nothing : t.mem_empty ≡ true → c.mem_has key ≡ false
    pub mem_cold : t.mem_cold_only ≡ true → is_hot_key t key ≡ true → c.mem_has key ≡ false
    pub imm_nothing : t.has_imm ≡ false → c.imm_has key ≡ false
    pub imm_cold : t.imm_cold_only ≡ true → is_hot_key t key ≡ true → c.imm_has key ≡ false
    pub lsmt_nothing : nonempty_level t.leveldb_lsmt ≡ false → c.lsmt_has key ≡ false
    pub lsmt_cold :
        hotspot_in t.leveldb_lsmt ≡ false → is_hot_key t key ≡ true → c.lsmt_has key ≡ false
    pub node_nothing :
        (q : ℕ) (l : Option Lsmt)
        → t.node_table q ≡ some l
        → nonempty_level l ≡ false
        → c.node_has q key ≡ false
    pub node_cold :
        (q : ℕ) (l : Option Lsmt)
        → t.node_table q ≡ some l
        → hotspot_in l ≡ false
        → is_hot_key t key ≡ true
        → c.node_has q key ≡ false

  -- The key lies in the range, and in the hotspot, where the range has no upper end but counts as hot.
  pub record IsScanned {Q : Type 0} (t : BplusTree Q) (low up key : List ℕ) : Type 0 where
    pub from_low : compare_slices key low ≢ Ordering.lt
    pub to_up : (up ≡ []) ⊎ (compare_slices up key ≢ Ordering.lt)
    pub no_end : up ≡ [] → range_within_hotspot t low up ≡ true → is_hot_key t key ≡ true

  at_least :
      (a b c : List ℕ)
      → compare_slices b a ≢ Ordering.lt
      → compare_slices c b ≢ Ordering.lt
      → compare_slices c a ≢ Ordering.lt
  at_least a b c h k lt = k (below_at_most c a b lt h)

  not_lt :
      (a b : List ℕ) → not (is_lt (compare_slices a b)) ≡ true → compare_slices a b ≢ Ordering.lt
  not_lt a b h lt = absurd (ground (arith, h, lt))

  lt_not :
      (a b : List ℕ) → compare_slices a b ≢ Ordering.lt → not (is_lt (compare_slices a b)) ≡ true
  lt_not a b h = elim (Ordering-cases (compare_slices a b)) [
    | inl lt ↦ absurd (h lt)
    | inr (inl eq) ↦ rw eq refl
    | inr (inr gt) ↦ rw gt refl
  ]

  not_gt :
      (a b : List ℕ) → not (is_gt (compare_slices a b)) ≡ true → compare_slices b a ≢ Ordering.lt
  not_gt a b h lt = let gt = L.compare_lt b a lt in absurd (ground (arith, h, gt))

  gt_not :
      (a b : List ℕ) → compare_slices b a ≢ Ordering.lt → not (is_gt (compare_slices a b)) ≡ true
  gt_not a b h = elim (Ordering-cases (compare_slices a b)) [
    | inl lt ↦ rw lt refl
    | inr (inl eq) ↦ rw eq refl
    | inr (inr gt) ↦ absurd (h (L.compare_gt a b gt))
  ]

  -- The keys of a range that counts as hot lie in the hotspot.
  hot_range :
      {Q : Type 0} (t : BplusTree Q) (low up key : List ℕ)
      → IsScanned t low up key
      → range_within_hotspot t low up ≡ true
      → is_hot_key t key ≡ true
  unfolding range_within_hotspot
  hot_range t low [] key range hot = range.no_end refl hot
  hot_range t low (x ∷ xs) key range hot =
      elim (Bool-cases (is_empty t.low_hot_key && is_empty t.up_hot_key)) [
        | inl whole ↦ rw whole refl
        | inr part ↦
            let both : (not (is_lt (compare_slices low t.low_hot_key))
                  && not (is_gt (compare_slices (x ∷ xs) t.up_hot_key)))
                ≡ true =
              rw (range_within_hotspot, part) at hot in
            let low_in = not_lt low t.low_hot_key (ground (arith, both)) in
            let up_in = not_gt (x ∷ xs) t.up_hot_key (ground (arith, both)) in
            let below : compare_slices (x ∷ xs) key ≢ Ordering.lt = elim range.to_up [
              | inl e ↦ absurd (cc)
              | inr h ↦ h
            ] in
            let a =
              lt_not key t.low_hot_key (at_least t.low_hot_key low key low_in range.from_low) in
            let b = gt_not key t.up_hot_key (at_least key (x ∷ xs) t.up_hot_key below up_in) in
            ground (arith, a, b)
      ]

module _ ⦃L : Leveldb⦄ {Q : Type 0} (P : PriorityQueue Q) (kind : StateKind) (low up key : List ℕ)
    (t : BplusTree Q) (c : Contents) where
  -- What a scan reads of a key: all that has it from the memtables down to the child for the key.
  pub record Finds (s : RangeScan Q) : Type 0 where
    pub mem_found : c.mem_has key ≡ true → reads_some is_mem s.iter_vec ≡ true
    pub imm_found : c.imm_has key ≡ true → reads_some is_imm s.iter_vec ≡ true
    pub lsmt_found : c.lsmt_has key ≡ true → reads_some is_lsmt s.iter_vec ≡ true
    pub node_found :
        (q : ℕ) (l : Option Lsmt)
        → Below key t.pages t.node_table t.root_pg_id q
        → t.node_table q ≡ some l
        → c.node_has q key ≡ true
        → reads q s.iter_vec ≡ true
    pub page_found :
        (q : ℕ)
        → Below key t.pages t.node_table t.root_pg_id q
        → t.node_table q ≡ none
        → reads_some (has_page q) s.iter_vec ≡ true
    pub page_locked :
        (q : ℕ)
        → Below key t.pages t.node_table t.root_pg_id q
        → has (page_lock q) s.locked_nodes ≡ true

  module _ (flags : Flags t c key) (range : IsScanned t low up key) where
    abbrev is_hot : Bool
    is_hot = range_within_hotspot t low up

    key_hot : is_hot ≡ true → is_hot_key t key ≡ true
    key_hot = hot_range t low up key range

    mem_must : c.mem_has key ≡ true → mem_read is_hot t ≡ true
    mem_must e =
        let (some_, warm) =
          must_read t.mem_empty is_hot t.mem_cold_only (c.mem_has key) flags.mem_nothing
            (λ cold hot. flags.mem_cold cold (key_hot hot)) e in
        ground (arith, some_, warm)

    imm_must : c.imm_has key ≡ true → imm_read is_hot t ≡ true
    imm_must e =
        let (some_, warm) =
          must_read (not t.has_imm) is_hot t.imm_cold_only (c.imm_has key)
            (λ none_. flags.imm_nothing (ground (arith, none_)))
            (λ cold hot. flags.imm_cold cold (key_hot hot)) e in
        ground (arith, some_, warm)

    tree_must :
        (l : Option Lsmt) (b : Bool)
        → (nonempty_level l ≡ false → b ≡ false)
        → (hotspot_in l ≡ false → is_hot_key t key ≡ true → b ≡ false)
        → b ≡ true
        → is_read is_hot l ≡ true
    tree_must l b empty chilled e =
        let (some_, warm) =
          must_read (not (nonempty_level l)) is_hot (not (hotspot_in l)) b
            (λ none_. empty (ground (arith, none_)))
            (λ cold hot. chilled (ground (arith, cold)) (key_hot hot)) e in
        ground (arith, some_, warm)

    Reads-Finds : (s : RangeScan Q) → Reads P kind low up key t s → Finds s
    Reads-Finds s r = record {
      mem_found = λ e. r.mem_there (mem_must e);
      imm_found = λ e. r.imm_there (imm_must e);
      lsmt_found = λ e.
          r.lsmt_there
            (tree_must t.leveldb_lsmt (c.lsmt_has key) flags.lsmt_nothing flags.lsmt_cold e);
      node_found = λ q l w there e. r.node_there q l w there (
          tree_must l (c.node_has q key) (flags.node_nothing q l there) (flags.node_cold q l there)
            e);
      page_found = r.page_there;
      page_locked = r.page_locked;
    }

  -- Take a tree of more than one level whose pages are as high as they say, where no call writes, and a
  -- key for which the flags of the index are right: an empty memtable, an immutable one that is
  -- not there and a log-structured tree with no level do not have it, and what is marked as cold
  -- has no key of the hotspot. Let the key lie in the range, and in the hotspot, where the range
  -- has no upper end but counts as hot. A scan in either state returns, if its fuel exceeds the
  -- number of the pages, and reads whatever has the key among the memtables, the root's log-structured
  -- tree, and the trees of the nodes from the root down to the child for the key. It locks each
  -- page on that way, as far as the pages have nodes, and reads the page of the last one, where
  -- that has no node.
  pub new_iterator-Finds :
      (l : Lsmt) (h fuel : ℕ)
      → IsScanned t low up key
      → Flags t c key
      → IsTree t.pages h t.root_pg_id
      → tree_size t.pages h t.root_pg_id < fuel
      → IsQuiet t.lock_mgr
      → 1 < t.tree_height
      → t.leveldb_lsmt ≡ some l
      → (s : RangeScan Q) × (n node_num : ℕ) × (new_iterator P fuel kind low up t
          ≡ some (s, n, node_num))
        × Finds s
  new_iterator-Finds l h fuel range flags tree enough quiet tall there =
      let lies : IsInRange low up key = record {
        from_low = inr range.from_low;
        to_up = range.to_up;
      } in
      let (s, n, node_num, done, r) =
        new_iterator_lem P kind low up key t l h fuel lies tree enough quiet tall there in
      (s, n, node_num, done, Reads-Finds flags range s r)
