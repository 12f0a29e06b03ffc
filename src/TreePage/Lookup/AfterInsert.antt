-- ===== src/TreePage/Lookup/AfterInsert.antt =====
-- `GetValueWithKey` behind `PageInsertLeafEntry`.
use aha_adaptive_hotspot_awa.Common.{
  ℕ, ◌+◌, ◌<◌, ◌≡◌, ◌≢◌, inl, inr, true, some, Ordering, List, [], length, arith, ap, ◌∙◌, dec_lt,
  ℕ_discrete, sym,
}
use mathlib.Core.Option.{some-injective}
use aha_adaptive_hotspot_awa.Leveldb.{Leveldb}
use aha_adaptive_hotspot_awa.TreePage.Layout.{Page, page_read_pivot_at_offset, decode_leaf_entry}
use aha_adaptive_hotspot_awa.TreePage.Search.Bounds.{
  IsSorted, IsLowerBound, against, IsSorted-Falls, page_bin_search_insert-IsLowerBound,
}
use aha_adaptive_hotspot_awa.TreePage.Valid.{IsValid, old_offset}
use aha_adaptive_hotspot_awa.TreePage.Update.{page_update_pivot_at}
use aha_adaptive_hotspot_awa.TreePage.Update.Value.{
  Updated, page_update_pivot_at-Updated, Updated-IsSorted,
}
use aha_adaptive_hotspot_awa.TreePage.Insert.{page_insert_leaf_entry}
use aha_adaptive_hotspot_awa.TreePage.Insert.Leaf.{Inserted, page_insert_leaf_entry_new, has_room}
use aha_adaptive_hotspot_awa.TreePage.Lookup.{get_value_with_key}
use aha_adaptive_hotspot_awa.TreePage.Lookup.Reads.{member_cases, pivot-decode, get_hit, get_miss}

module _ ⦃L : Leveldb⦄ where
  -- The bound of a key that is there is its offset.
  bound_eq :
      (p : Page) (key : List ℕ) (off i : ℕ)
      → IsSorted p
      → IsLowerBound (against p key) p.item_num off
      → i < p.item_num
      → page_read_pivot_at_offset p i ≡ key
      → off ≡ i
  bound_eq p key off i sorted bound h e =
      let at_i : against p key i ≡ Ordering.eq = rw e (L.compare_self key) in
      elim (dec_lt i off) [
        | yes small ↦ let f = bound.before i small in absurd (cc)
        | no other ↦ elim (dec_lt off i) [
          | yes big ↦ absurd (
              bound.behind off (omega arith) (omega arith)
                ((IsSorted-Falls p key sorted).below_eq off i big h at_i))
          | no same ↦ omega arith
        ]
      ]

  -- What the insert of a key leaves for the lookups.
  record Stores (p : Page) (key val : List ℕ) (p' : Page) : Type 0 where
    valid : IsValid p'
    sorted : IsSorted p'
    self : get_value_with_key p' key ≡ some val
    other : (k : List ℕ) → k ≢ [] → k ≢ key → get_value_with_key p' k ≡ get_value_with_key p k

  module _ (p : Page) (key val : List ℕ) (valid : IsValid p) (sorted : IsSorted p)
      (leaf : p.is_leaf ≡ true)
      (room : p.free_start + (length key + length val + 12) < p.free_end) where
    -- A key that is there has its value updated.
    pub page_insert_leaf_entry_old :
        (i : ℕ)
        → i < p.item_num
        → page_read_pivot_at_offset p i ≡ key
        → page_insert_leaf_entry p key val ≡ some (page_update_pivot_at p i val).0
    unfolding page_insert_leaf_entry
    page_insert_leaf_entry_old i h e =
        let (off, found, bound) = page_bin_search_insert-IsLowerBound p key sorted in
        let same = bound_eq p key off i sorted bound h e in
        rw (
          has_room p (length key + length val + 12) valid (omega arith) room,
          found,
          same,
          e,
          L.compare_self key,
        )

    Inserted-Stores : (p' : Page) (off : ℕ) → Inserted p p' key val off → Stores p key val p'
    Inserted-Stores p' off ins = record {
      valid = ins.valid;
      sorted = ins.sorted;
      self = self;
      other = other;
    }
      where
        off_within : off < p'.item_num
        off_within = omega (arith, ins.count, ins.place.within)

        at_off : page_read_pivot_at_offset p' off ≡ key
        at_off =
            pivot-decode p' off ins.leaf off_within ∙ ap (λ (e : List ℕ × List ℕ). e.0) ins.entry

        self : get_value_with_key p' key ≡ some val
        self =
            get_hit p' key off ins.sorted ins.leaf off_within at_off
            ∙ ap (λ (e : List ℕ × List ℕ). some e.1) ins.entry

        hit :
            (k : List ℕ)
            → k ≢ key
            → (j i : ℕ) → j < p'.item_num
            → j ≢ off
            → old_offset off j ≡ i
            → i < p.item_num
            → page_read_pivot_at_offset p i ≡ k
            → get_value_with_key p' k ≡ get_value_with_key p k
        hit k ne j i lt nj old h e =
            let kept = ins.others j lt nj ∙ ap (decode_leaf_entry p) old in
            get_hit p' k j ins.sorted ins.leaf lt (
              pivot-decode p' j ins.leaf lt
              ∙ ap (λ (x : List ℕ × List ℕ). x.0) kept
              ∙ sym (pivot-decode p i leaf h)
              ∙ e)
            ∙ ap (λ (x : List ℕ × List ℕ). some x.1) kept
            ∙ sym (get_hit p k i sorted leaf h e)

        absent' :
            (k : List ℕ)
            → k ≢ key
            → ((i : ℕ) → i < p.item_num → page_read_pivot_at_offset p i ≢ k)
            → (j : ℕ) → j < p'.item_num
            → page_read_pivot_at_offset p' j ≢ k
        absent' k ne absent j lt e = elim (ℕ_discrete j off) [
          | yes f ↦ ne (sym e ∙ ap (page_read_pivot_at_offset p') f ∙ at_off)
          | no nj ↦
              let within : old_offset off j < p.item_num =
                ground (arith, ins.count, ins.place.within) in
              absent (old_offset off j) within (
                pivot-decode p _ leaf within
                ∙ sym (ap (λ (x : List ℕ × List ℕ). x.0) (ins.others j lt nj))
                ∙ sym (pivot-decode p' j ins.leaf lt)
                ∙ e)
        ]

        other : (k : List ℕ) → k ≢ [] → k ≢ key → get_value_with_key p' k ≡ get_value_with_key p k
        other k some_k ne = elim (member_cases p k) [
          | inl (i, h, e) ↦ elim (dec_lt i off) [
            | yes small ↦ hit k ne i i (omega (arith, ins.count)) (omega arith) (ground arith) h e
            | no big ↦
                hit k ne (i + 1) i (omega (arith, ins.count)) (omega arith) (ground arith) h e
          ]
          | inr absent ↦
              get_miss p' k ins.sorted ins.leaf some_k (absent' k ne absent)
              ∙ sym (get_miss p k sorted leaf some_k absent)
        ]

    Updated-Stores :
        (p' : Page) (at : ℕ)
        → at < p.item_num
        → page_read_pivot_at_offset p at ≡ key
        → Updated p p' at val
        → Stores p key val p'
    Updated-Stores p' at h at_key up = record {
      valid = up.valid;
      sorted = sorted';
      self = self;
      other = other;
    }
      where
        sorted' : IsSorted p'
        sorted' = Updated-IsSorted p p' at val sorted up

        self : get_value_with_key p' key ≡ some val
        self =
            get_hit p' key at sorted' up.leaf (omega (arith, up.count)) (up.pivots at h ∙ at_key)
            ∙ ap (λ (e : List ℕ × List ℕ). some e.1) up.entry

        hit :
            (k : List ℕ)
            → k ≢ key
            → (i : ℕ) → i < p.item_num
            → page_read_pivot_at_offset p i ≡ k
            → get_value_with_key p' k ≡ get_value_with_key p k
        hit k ne i lt e =
            get_hit p' k i sorted' up.leaf (omega (arith, up.count)) (up.pivots i lt ∙ e)
            ∙ ap (λ (x : List ℕ × List ℕ). some x.1)
                (up.others i lt (λ f. ne (sym e ∙ ap (page_read_pivot_at_offset p) f ∙ at_key)))
            ∙ sym (get_hit p k i sorted leaf lt e)

        other : (k : List ℕ) → k ≢ [] → k ≢ key → get_value_with_key p' k ≡ get_value_with_key p k
        other k some_k ne = elim (member_cases p k) [
          | inl (i, lt, e) ↦ hit k ne i lt e
          | inr absent ↦
              get_miss p' k sorted' up.leaf some_k (λ i lt e.
                absent i (omega (arith, up.count))
                  (sym (up.pivots i (omega (arith, up.count))) ∙ e))
              ∙ sym (get_miss p k sorted leaf some_k absent)
        ]

    module _ (some_key : key ≢ [])
        (same : (i : ℕ)
          → i < p.item_num
          → page_read_pivot_at_offset p i ≡ key
          → length val ≡ length (decode_leaf_entry p i).1) where
      stored : (p' : Page) × (page_insert_leaf_entry p key val ≡ some p') × Stores p key val p'
      stored = elim (member_cases p key) [
        | inl (i, h, e) ↦ (
          (page_update_pivot_at p i val).0,
          page_insert_leaf_entry_old i h e,
          Updated-Stores _ i h e (page_update_pivot_at-Updated p i val valid leaf h (same i h e)).1,
        )
        | inr absent ↦
            let (p', off, result, ins) =
              page_insert_leaf_entry_new p key val valid sorted leaf room some_key absent in
            (p', result, Inserted-Stores p' off ins)
      ]

      -- On a well-formed leaf page in order, with room for the entry, the insert of a nonempty key
      -- gets through if the old value, where there is one, is as long as the new. The new page is
      -- well-formed and in order, and the key is looked up as the new value.
      pub get-insert_self :
          (p' : Page) × (page_insert_leaf_entry p key val ≡ some p')
          × IsValid p'
          × IsSorted p'
          × (get_value_with_key p' key ≡ some val)
      get-insert_self = let (p', result, s) = stored in (p', result, s.valid, s.sorted, s.self)

      -- On a well-formed leaf page in order, with room for the entry, the insert of a nonempty key whose
      -- old value, where there is one, is as long as the new leaves every other nonempty key to be
      -- looked up as before.
      pub get-insert_other :
          (p' : Page) (k : List ℕ)
          → page_insert_leaf_entry p key val ≡ some p'
          → k ≢ []
          → k ≢ key
          → get_value_with_key p' k ≡ get_value_with_key p k
      get-insert_other p' k result some_k ne =
          let (q, result', s) = stored in
          ap (λ r. get_value_with_key r k) (some-injective _ _ (sym result ∙ result'))
          ∙ s.other k some_k ne
