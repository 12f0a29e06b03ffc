-- ===== src/TreePage/Insert/Moved.antt =====
-- `PageMoveLeafEntries`: entries that lie behind those of a page are appended to it one by one.
use aha_adaptive_hotspot_awa.Common.{
  ℕ, zero, suc, ◌+◌, ◌-◌, ◌≤◌, ◌<◌, ◌≡◌, ◌≢◌, refl, true, some, Ordering, List, [], length, arith,
  ap, ◌∙◌, dec_lt, sym, sub32_small, subst, ℕ_discrete,
}
use aha_adaptive_hotspot_awa.Leveldb.{Leveldb, compare_slices}
use aha_adaptive_hotspot_awa.TreePage.Layout.{Page, page_read_pivot_at_offset, decode_leaf_entry}
use aha_adaptive_hotspot_awa.TreePage.Search.Bounds.{
  IsSorted, IsLowerBound, against, page_bin_search_insert-IsLowerBound,
}
use aha_adaptive_hotspot_awa.TreePage.Valid.{IsValid, old_offset}
use aha_adaptive_hotspot_awa.TreePage.Insert.{
  page_insert_leaf_entry, page_write_leaf_entry_at, count_entry, move_leaf_from,
}
use aha_adaptive_hotspot_awa.TreePage.Insert.Leaf.{
  Inserted, Splits-of_bound, written_Inserted, has_room, not_equal,
}
use aha_adaptive_hotspot_awa.TreePage.Lookup.Reads.{pivot-decode}

module _ ⦃L : Leveldb⦄ where
  abbrev pub entry_key : Page → ℕ → List ℕ
  entry_key p i = (decode_leaf_entry p i).0

  -- The bytes that an entry takes with its slot.
  abbrev pub entry_cost : Page → ℕ → ℕ
  entry_cost p i = length (decode_leaf_entry p i).0 + length (decode_leaf_entry p i).1 + 12

  unfoldable pub cost_from : Page → ℕ → ℕ → ℕ
  cost_from p off zero = 0
  cost_from p off (suc rounds) = entry_cost p off + cost_from p (off + 1) rounds

  -- All keys of the page are smaller than this.
  abbrev pub IsBelow : Page → List ℕ → Type 0
  IsBelow p key =
      (i : ℕ) → i < p.item_num → compare_slices (page_read_pivot_at_offset p i) key ≡ Ordering.lt

  -- The key is appended.
  record Appended (p p' : Page) (key val : List ℕ) : Type 0 where
    pub inserted : Inserted p p' key val p.item_num
    pub used :
        p.free_end + p'.free_start ≡ p'.free_end + p.free_start + (length key + length val + 12)

  absent_below :
      (p : Page) (key : List ℕ)
      → IsBelow p key
      → (i : ℕ) → i < p.item_num
      → page_read_pivot_at_offset p i ≢ key
  absent_below p key below i h e =
      let lt = below i h in
      let eq : compare_slices (page_read_pivot_at_offset p i) key ≡ Ordering.eq =
        rw e (L.compare_self key) in
      cc

  bound_last :
      (p : Page) (key : List ℕ) (off : ℕ)
      → IsBelow p key
      → IsLowerBound (against p key) p.item_num off
      → off ≡ p.item_num
  bound_last p key off below bound = elim (dec_lt off p.item_num) [
    | no h ↦ omega (arith, bound.within)
    | yes h ↦ absurd (bound.behind off (omega arith) h (L.compare_lt _ _ (below off h)))
  ]

  append_leaf :
      (p : Page) (key val : List ℕ)
      → IsValid p
      → IsSorted p
      → p.is_leaf ≡ true
      → p.free_start + (length key + length val + 12) < p.free_end
      → key ≢ []
      → IsBelow p key
      → (p' : Page) × (page_insert_leaf_entry p key val ≡ some p') × Appended p p' key val
  unfolding page_insert_leaf_entry page_write_leaf_entry_at
  append_leaf p key val valid sorted leaf room some_key below =
      let (off, found, bound) = page_bin_search_insert-IsLowerBound p key sorted in
      let last = bound_last p key off below bound in
      let absent = absent_below p key below in
      let ins = written_Inserted p key val valid sorted leaf room p.item_num (
        Splits-of_bound p key p.item_num
          (subst (IsLowerBound (against p key) p.item_num) last bound) absent) in
      (
        count_entry (page_write_leaf_entry_at p.item_num p key val),
        rw (
          has_room p (length key + length val + 12) valid (omega arith) room,
          found,
          last,
          not_equal p key p.item_num some_key absent,
        ),
        record {
          inserted = ins;
          used = omega (
            arith,
            ins.valid.start,
            valid.start,
            ins.count,
            valid.top,
            sub32_small p.free_end (length key + 8 + length val) (omega arith)
                (omega (arith, valid.top)),
          );
        },
      )

  -- The entries of `src` from an offset on stand behind those of `dest`, which are as they were.
  pub record Moved (src dest : Page) (off rounds : ℕ) (dest' : Page) : Type 0 where
    pub valid : IsValid dest'
    pub sorted : IsSorted dest'
    pub leaf : dest'.is_leaf ≡ true
    pub count : dest'.item_num ≡ dest.item_num + rounds
    pub front : (i : ℕ) → i < dest.item_num → decode_leaf_entry dest' i ≡ decode_leaf_entry dest i
    pub back :
        (j : ℕ)
        → j < rounds
        → decode_leaf_entry dest' (dest.item_num + j) ≡ decode_leaf_entry src (off + j)
    pub used :
        dest.free_end + dest'.free_start
        ≡ dest'.free_end + dest.free_start + cost_from src off rounds

  module _ (src : Page) (sorted_src : IsSorted src) (leaf_src : src.is_leaf ≡ true)
      (keys : (i : ℕ) → i < src.item_num → entry_key src i ≢ []) where
    keys_ascend :
        (off : ℕ)
        → off + 1 < src.item_num
        → compare_slices (entry_key src off) (entry_key src (off + 1)) ≡ Ordering.lt
    keys_ascend off h =
        ap (λ k. compare_slices k (entry_key src (off + 1)))
          (sym (pivot-decode src off leaf_src (omega arith)))
        ∙ ap (compare_slices (page_read_pivot_at_offset src off))
            (sym (pivot-decode src (off + 1) leaf_src h))
        ∙ sorted_src off (off + 1) (omega arith) h

    kept_front :
        (dest next : Page) (key val : List ℕ)
        → Appended dest next key val
        → (i : ℕ) → i < dest.item_num
        → decode_leaf_entry next i ≡ decode_leaf_entry dest i
    kept_front dest next key val app i h =
        let ins = app.inserted in
        let old : old_offset dest.item_num i ≡ i = ground arith in
        ins.others i (omega (arith, ins.count)) (omega arith) ∙ ap (decode_leaf_entry dest) old

    Appended-IsBelow :
        (dest next : Page) (off : ℕ)
        → off + 1 < src.item_num
        → Appended dest next (entry_key src off) (decode_leaf_entry src off).1
        → dest.is_leaf ≡ true
        → IsBelow dest (entry_key src off)
        → IsBelow next (entry_key src (off + 1))
    Appended-IsBelow dest next off h app leaf below i lt =
        let ins = app.inserted in
        let step = keys_ascend off h in
        let here = pivot-decode next i ins.leaf lt in
        elim (ℕ_discrete i dest.item_num) [
          | yes e ↦
              let at : page_read_pivot_at_offset next i ≡ entry_key src off =
                here ∙ ap (entry_key next) e ∙ ap (λ (x : List ℕ × List ℕ). x.0) ins.entry in
              ap (λ k. compare_slices k (entry_key src (off + 1))) at ∙ step
          | no ne ↦
              let small : i < dest.item_num = omega (arith, ins.count) in
              let at : page_read_pivot_at_offset next i ≡ page_read_pivot_at_offset dest i =
                here
                ∙ ap (λ (x : List ℕ × List ℕ). x.0) (kept_front dest next _ _ app i small)
                ∙ sym (pivot-decode dest i leaf small) in
              ap (λ k. compare_slices k (entry_key src (off + 1))) at
              ∙ L.compare_trans _ _ _ (below i small) step
        ]

    behind_next :
        (dest next dest' : Page) (off rounds : ℕ)
        → Appended dest next (entry_key src off) (decode_leaf_entry src off).1
        → Moved src next (off + 1) rounds dest'
        → (j : ℕ) → j < suc rounds
        → decode_leaf_entry dest' (dest.item_num + j) ≡ decode_leaf_entry src (off + j)
    behind_next dest next dest' off rounds app m j h =
        let ins = app.inserted in
        elim (ℕ_discrete j 0) [
          | yes z ↦
              let i : dest.item_num + j ≡ dest.item_num = omega arith in
              let o : off ≡ off + j = omega arith in
              ap (decode_leaf_entry dest') i
              ∙ m.front dest.item_num (omega (arith, ins.count))
              ∙ ins.entry
              ∙ ap (decode_leaf_entry src) o
          | no nz ↦
              let i : dest.item_num + j ≡ next.item_num + (j - 1) = omega (arith, ins.count) in
              let o : off + 1 + (j - 1) ≡ off + j = omega arith in
              ap (decode_leaf_entry dest') i
              ∙ m.back (j - 1) (omega arith)
              ∙ ap (decode_leaf_entry src) o
        ]

    pub Moved-from :
        (dest : Page) (off rounds : ℕ)
        → IsValid dest
        → IsSorted dest
        → dest.is_leaf ≡ true
        → off + rounds ≤ src.item_num
        → dest.free_start + cost_from src off rounds < dest.free_end
        → (rounds ≢ 0 → IsBelow dest (entry_key src off))
        → (dest' : Page) × (move_leaf_from src dest off rounds ≡ some dest')
          × Moved src dest off rounds dest'
    unfolding move_leaf_from cost_from
    Moved-from dest off zero valid sorted leaf within room below = (
      dest,
      refl,
      record {
        valid = valid;
        sorted = sorted;
        leaf = leaf;
        count = omega arith;
        front = λ i h. refl;
        back = λ j h. absurd (omega arith);
        used = omega arith;
      },
    )
    Moved-from dest off (suc rounds) valid sorted leaf within room below =
        let (next, done, app) =
          append_leaf dest (entry_key src off) (decode_leaf_entry src off).1 valid sorted leaf
            (omega arith) (keys off (omega arith)) (below (λ z. absurd (omega (arith, z)))) in
        let ins = app.inserted in
        let (dest', rest, m) =
          Moved-from next (off + 1) rounds ins.valid ins.sorted ins.leaf (omega arith)
            (omega (arith, app.used, ins.valid.start, valid.start, ins.count))
            (λ some_left.
              Appended-IsBelow dest next off (omega (arith, some_left)) app leaf
                (below (λ z. absurd (omega (arith, z))))) in
        (
          dest',
          rw (move_leaf_from, done) rest,
          record {
            valid = m.valid;
            sorted = m.sorted;
            leaf = m.leaf;
            count = omega (arith, m.count, ins.count);
            front = λ i h. m.front i (omega (arith, ins.count)) ∙ kept_front dest next _ _ app i h;
            back = behind_next dest next dest' off rounds app m;
            used = omega (arith, m.used, app.used);
          },
        )
