-- ===== src/TreePage/Lookup/Pivots.antt =====
-- The pivots of a leaf page behind `PageInsertLeafEntry`.
use aha_adaptive_hotspot_awa.Common.{
  ℕ, ◌+◌, ◌<◌, ◌≡◌, ◌≢◌, ◌⊎◌, refl, inl, inr, Bool, true, false, some, List, [], length, arith, ap,
  ◌∙◌, dec_lt, ℕ_discrete, sym, subst,
}
use mathlib.Core.Option.{some-injective}
use aha_adaptive_hotspot_awa.Leveldb.{Leveldb}
use aha_adaptive_hotspot_awa.TreePage.Layout.{Page, page_read_pivot_at_offset, decode_leaf_entry}
use aha_adaptive_hotspot_awa.TreePage.Search.Bounds.{IsSorted}
use aha_adaptive_hotspot_awa.TreePage.Valid.{IsValid, old_offset}
use aha_adaptive_hotspot_awa.TreePage.Update.Value.{Updated, page_update_pivot_at-Updated}
use aha_adaptive_hotspot_awa.TreePage.Insert.{page_insert_leaf_entry}
use aha_adaptive_hotspot_awa.TreePage.Insert.Leaf.{Inserted, page_insert_leaf_entry_new}
use aha_adaptive_hotspot_awa.TreePage.Lookup.Reads.{member_cases, pivot-decode}
use aha_adaptive_hotspot_awa.TreePage.Lookup.AfterInsert.{page_insert_leaf_entry_old}

module _ ⦃L : Leveldb⦄ where
  -- The pivots of a page with (`b`) or without a new key.
  pub record Grows (b : Bool) (p p' : Page) (key : List ℕ) : Type 0 where
    pub own : b ≡ true → (j : ℕ) × (j < p'.item_num) × (page_read_pivot_at_offset p' j ≡ key)
    pub old :
        (i : ℕ)
        → i < p.item_num
        → (j : ℕ) × (j < p'.item_num)
          × (page_read_pivot_at_offset p' j ≡ page_read_pivot_at_offset p i)
    pub from :
        (j : ℕ)
        → j < p'.item_num
        → ((b ≡ true) × (page_read_pivot_at_offset p' j ≡ key))
          ⊎ ((i : ℕ) × (i < p.item_num)
              × (page_read_pivot_at_offset p' j ≡ page_read_pivot_at_offset p i))

  pub Grows-refl : (p : Page) (key : List ℕ) → Grows false p p key
  Grows-refl p key = record {
    own = λ e. absurd (cc);
    old = λ i h. (i, h, refl);
    from = λ j h. inr (j, h, refl);
  }

  module _ (p : Page) (key val : List ℕ) (leaf : p.is_leaf ≡ true) where
    Updated-Grows :
        (p' : Page) (at : ℕ)
        → at < p.item_num
        → page_read_pivot_at_offset p at ≡ key
        → Updated p p' at val
        → Grows true p p' key
    Updated-Grows p' at h at_key up = record {
      own = λ e. (at, omega (arith, up.count), up.pivots at h ∙ at_key);
      old = λ i lt. (i, omega (arith, up.count), up.pivots i lt);
      from = λ j lt. inr (j, omega (arith, up.count), up.pivots j (omega (arith, up.count)));
    }

    -- An entry that stays keeps its pivot.
    kept_pivot :
        (p' : Page) (off j i : ℕ)
        → Inserted p p' key val off
        → j < p'.item_num
        → j ≢ off
        → old_offset off j ≡ i
        → i < p.item_num
        → page_read_pivot_at_offset p' j ≡ page_read_pivot_at_offset p i
    kept_pivot p' off j i ins lt nj to h =
        pivot-decode p' j ins.leaf lt
        ∙ ap (λ (x : List ℕ × List ℕ). x.0) (ins.others j lt nj ∙ ap (decode_leaf_entry p) to)
        ∙ sym (pivot-decode p i leaf h)

    Inserted-Grows : (p' : Page) (off : ℕ) → Inserted p p' key val off → Grows true p p' key
    Inserted-Grows p' off ins =
        let off_within : off < p'.item_num = omega (arith, ins.count, ins.place.within) in
        let at_off : page_read_pivot_at_offset p' off ≡ key =
          pivot-decode p' off ins.leaf off_within ∙ ap (λ (e : List ℕ × List ℕ). e.0) ins.entry in
        record {
          own = λ e. (off, off_within, at_off);
          old = λ i h. elim (dec_lt i off) [
            | yes small ↦ (
              i,
              omega (arith, ins.count),
              kept_pivot p' off i i ins (omega (arith, ins.count)) (omega arith) (ground arith) h,
            )
            | no big ↦ (
              i + 1,
              omega (arith, ins.count),
              kept_pivot p' off (i + 1) i ins (omega (arith, ins.count)) (omega arith)
                  (ground arith) h,
            )
          ];
          from = λ j lt. elim (ℕ_discrete j off) [
            | yes f ↦ inl (refl, ap (page_read_pivot_at_offset p') f ∙ at_off)
            | no nj ↦
                let within : old_offset off j < p.item_num =
                  ground (arith, ins.count, ins.place.within) in
                inr (old_offset off j, within, kept_pivot p' off j _ ins lt nj refl within)
          ];
        }

    pub insert-Grows :
        (p' : Page)
        → IsValid p
        → IsSorted p
        → p.free_start + (length key + length val + 12) < p.free_end
        → key ≢ []
        → ((i : ℕ)
            → i < p.item_num
            → page_read_pivot_at_offset p i ≡ key
            → length val ≡ length (decode_leaf_entry p i).1)
        → page_insert_leaf_entry p key val ≡ some p'
        → Grows true p p' key
    insert-Grows p' valid sorted room some_key same result = elim (member_cases p key) [
      | inl (i, h, e) ↦
          let done = page_insert_leaf_entry_old p key val valid sorted leaf room i h e in
          subst (λ q. Grows true p q key) (some-injective _ _ (sym done ∙ result))
            (Updated-Grows _ i h e
              (page_update_pivot_at-Updated p i val valid leaf h (same i h e)).1)
      | inr absent ↦
          let (q, off, done, ins) =
            page_insert_leaf_entry_new p key val valid sorted leaf room some_key absent in
          subst (λ r. Grows true p r key) (some-injective _ _ (sym done ∙ result))
            (Inserted-Grows q off ins)
    ]
