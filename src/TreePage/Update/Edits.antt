-- ===== src/TreePage/Update/Edits.antt =====
-- An update in place: one entry changes within its bytes and keeps its size, so the page stays
-- well-formed and the other entries decode as before.
use aha_adaptive_hotspot_awa.Common.{
  ℕ, ◌+◌, ◌≤◌, ◌<◌, ◌≡◌, ◌≢◌, ◌⊎◌, inl, inr, true, arith, ap, ◌∙◌, ℕ_discrete, sym,
}
use aha_adaptive_hotspot_awa.Leveldb.{Leveldb}
use aha_adaptive_hotspot_awa.TreePage.Layout.{
  Page, slot_at, page_read_pivot_at_offset, decode_leaf_entry, decode_index_entry, key_at, val_at,
  child_at, entry_pos,
}
use aha_adaptive_hotspot_awa.TreePage.Entries.{size_at, Alike, entry_agree, decode_agree}
use aha_adaptive_hotspot_awa.TreePage.Valid.{IsValid, entry_size, entry_end}
use aha_adaptive_hotspot_awa.TreePage.Insert.Order.{pivot-key_at}

module _ ⦃L : Leveldb⦄ where
  pub record Edits (p p' : Page) (at : ℕ) : Type 0 where
    pub within : at < p.item_num
    pub kind : p'.is_leaf ≡ p.is_leaf
    pub count : p'.item_num ≡ p.item_num
    pub start : p'.free_start ≡ p.free_start
    pub stop : p'.free_end ≡ p.free_end
    pub outside : (a : ℕ) → (a < entry_pos p at) ⊎ (entry_end p at ≤ a) → p'.bytes a ≡ p.bytes a
    pub size : size_at p.is_leaf p'.bytes (entry_pos p at) ≡ entry_size p at

  module _ (p p' : Page) (at : ℕ) (valid : IsValid p) (edits : Edits p p' at) where
    pub Edits-pos : (i : ℕ) → i < p.item_num → entry_pos p' i ≡ entry_pos p i
    unfolding entry_pos
    Edits-pos i h =
        let below : slot_at i + 4 ≤ entry_pos p at =
          omega (arith, valid.start, valid.room, valid.top, valid.low at edits.within) in
        decode_agree p'.bytes p.bytes (slot_at i) (slot_at i)
          (omega (arith, valid.start, valid.room, valid.top))
          (omega (arith, valid.start, valid.room, valid.top))
          λ k lt. edits.outside (slot_at i + k) (inl (omega arith))

    away :
        (i k : ℕ)
        → k < entry_size p i
        → (entry_end p i ≤ entry_pos p at) ⊎ (entry_end p at ≤ entry_pos p i)
        → (entry_pos p i + k < entry_pos p at) ⊎ (entry_end p at ≤ entry_pos p i + k)
    away i k lt (inl e) = inl (omega arith)
    away i k lt (inr e) = inr (omega arith)

    pub Edits-Alike :
        (i : ℕ)
        → i < p.item_num
        → i ≢ at
        → Alike p.bytes p'.bytes (entry_pos p i) (entry_pos p i) p.is_leaf
    Edits-Alike i h ne =
        entry_agree p.bytes p'.bytes (entry_pos p i) (entry_pos p i) p.is_leaf (valid.high i h)
          (valid.high i h)
          λ k lt.
            sym
              (edits.outside (entry_pos p i + k) (away i k lt (valid.apart i at h edits.within ne)))

    pub Edits-size : (i : ℕ) → i < p.item_num → entry_size p' i ≡ entry_size p i
    Edits-size i h =
        ap (λ l. size_at l p'.bytes (entry_pos p' i)) edits.kind
        ∙ ap (size_at p.is_leaf p'.bytes) (Edits-pos i h)
        ∙ elim (ℕ_discrete i at) [
          | yes e ↦ rw e edits.size
          | no ne ↦ sym ((Edits-Alike i h ne).size)
        ]

    moved_apart :
        (i j : ℕ)
        → i < p.item_num
        → j < p.item_num
        → (entry_end p i ≤ entry_pos p j) ⊎ (entry_end p j ≤ entry_pos p i)
        → (entry_end p' i ≤ entry_pos p' j) ⊎ (entry_end p' j ≤ entry_pos p' i)
    moved_apart i j h k (inl e) = inl (omega (arith, Edits-size i h, Edits-pos i h, Edits-pos j k))
    moved_apart i j h k (inr e) = inr (omega (arith, Edits-size j k, Edits-pos i h, Edits-pos j k))

    pub Edits-IsValid : IsValid p'
    Edits-IsValid = record {
      start = omega (arith, edits.start, edits.count, valid.start);
      room = omega (arith, edits.start, edits.stop, valid.room);
      top = omega (arith, edits.stop, valid.top);
      low = λ i h. omega (
        arith,
        edits.stop,
        Edits-pos i (omega (arith, edits.count)),
        valid.low i (omega (arith, edits.count)),
      );
      high = λ i h. omega (
        arith,
        Edits-size i (omega (arith, edits.count)),
        Edits-pos i (omega (arith, edits.count)),
        valid.high i (omega (arith, edits.count)),
      );
      apart = λ i j h k ne.
          moved_apart i j (omega (arith, edits.count)) (omega (arith, edits.count))
            (valid.apart i j (omega (arith, edits.count)) (omega (arith, edits.count)) ne);
    }

    edited_key :
        (i : ℕ)
        → i < p.item_num
        → i ≢ at
        → key_at p'.bytes (entry_pos p' i) ≡ key_at p.bytes (entry_pos p i)
    edited_key i h ne = ap (key_at p'.bytes) (Edits-pos i h) ∙ sym ((Edits-Alike i h ne).key)

    -- The other entries stay.
    pub Edits-pivot :
        (i : ℕ)
        → i < p.item_num
        → i ≢ at
        → page_read_pivot_at_offset p' i ≡ page_read_pivot_at_offset p i
    Edits-pivot i h ne =
        pivot-key_at p' i (omega (arith, edits.count))
        ∙ edited_key i h ne
        ∙ sym (pivot-key_at p i h)

    pub Edits-leaf :
        (i : ℕ)
        → p.is_leaf ≡ true
        → i < p.item_num
        → i ≢ at
        → decode_leaf_entry p' i ≡ decode_leaf_entry p i
    unfolding decode_leaf_entry
    Edits-leaf i leaf h ne =
        let val_kept = ap (val_at p'.bytes) (Edits-pos i h) ∙ sym ((Edits-Alike i h ne).val leaf) in
        λ t. (edited_key i h ne t, val_kept t)

    pub Edits-index :
        (i : ℕ) → i < p.item_num → i ≢ at → decode_index_entry p' i ≡ decode_index_entry p i
    unfolding decode_index_entry
    Edits-index i h ne =
        let child_kept =
          ap (child_at p'.bytes) (Edits-pos i h) ∙ sym ((Edits-Alike i h ne).child) in
        λ t. (edited_key i h ne t, child_kept t)
