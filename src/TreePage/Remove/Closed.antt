-- ===== src/TreePage/Remove/Closed.antt =====
-- An entry leaves a well-formed page: the entries below it move up by its size, those above stay,
-- and all decode as before.
use aha_adaptive_hotspot_awa.Common.{
  ℕ, ◌+◌, ◌≤◌, ◌<◌, ◌≡◌, ◌≢◌, ◌⊎◌, inl, inr, true, arith, ap, ◌∙◌, dec_lt, sym, ltb, if◌then◌else◌,
}
use mathlib.Core.Logic.{ite}
use aha_adaptive_hotspot_awa.Leveldb.{Leveldb}
use aha_adaptive_hotspot_awa.TreePage.Layout.{
  Page, page_size, page_read_pivot_at_offset, decode_leaf_entry, decode_index_entry, key_at,
  entry_pos,
}
use aha_adaptive_hotspot_awa.TreePage.Entries.{size_at, Alike, entry_agree, Same}
use aha_adaptive_hotspot_awa.TreePage.Valid.{IsValid, entry_size, entry_end}
use aha_adaptive_hotspot_awa.TreePage.Search.Bounds.{IsSorted}
use aha_adaptive_hotspot_awa.TreePage.Insert.Order.{pivot-key_at}

-- Where the entry at an offset of the new page stood.
abbrev pub skip_offset : ℕ → ℕ → ℕ
skip_offset off i = ite (dec_lt i off) i (i + 1)

-- Where an entry at a position goes when the entry at `pos` leaves a gap.
abbrev pub moved_pos : ℕ → ℕ → ℕ → ℕ
moved_pos pos gap q = if ltb q pos then q + gap else q

module _ ⦃L : Leveldb⦄ where
  pub record Closes (p p' : Page) (off : ℕ) : Type 0 where
    pub within : off < p.item_num
    pub kind : p'.is_leaf ≡ p.is_leaf
    pub count : p'.item_num + 1 ≡ p.item_num
    pub slots : p'.free_start + 4 ≡ p.free_start
    pub stop : p'.free_end ≡ p.free_end + entry_size p off
    pub moved :
        (i : ℕ)
        → i < p'.item_num
        → entry_pos p' i
          ≡ moved_pos (entry_pos p off) (entry_size p off) (entry_pos p (skip_offset off i))
    pub lower :
        (a : ℕ) → p.free_end ≤ a → a < entry_pos p off → p'.bytes (a + entry_size p off) ≡ p.bytes a
    pub upper : (a : ℕ) → entry_end p off ≤ a → p'.bytes a ≡ p.bytes a

  module _ (p p' : Page) (off : ℕ) (valid : IsValid p) (closes : Closes p p' off) where
    size_pos : (i : ℕ) → 0 < entry_size p i
    unfolding size_at
    size_pos i = omega arith

    pub skip_within : (i : ℕ) → i < p'.item_num → skip_offset off i < p.item_num
    skip_within i h = ground (arith, closes.count)

    skip_ne : (i : ℕ) → skip_offset off i ≢ off
    skip_ne i = ground arith

    -- An entry stays below the one that leaves and moves, or stays above it.
    place :
        (i : ℕ)
        → i < p'.item_num
        → ((entry_end p (skip_offset off i) ≤ entry_pos p off)
            × (entry_pos p' i ≡ entry_pos p (skip_offset off i) + entry_size p off))
          ⊎ ((entry_end p off ≤ entry_pos p (skip_offset off i))
              × (entry_pos p' i ≡ entry_pos p (skip_offset off i)))
    place i h =
        elim (valid.apart (skip_offset off i) off (skip_within i h) closes.within (skip_ne i)) [
          | inl e ↦ inl (e, closes.moved i h ∙ ground (arith, size_pos (skip_offset off i)))
          | inr e ↦ inr (e, closes.moved i h ∙ ground arith)
        ]

    Same-bytes :
        (i : ℕ)
        → i < p'.item_num
        → Same p.bytes p'.bytes
            (entry_pos p (skip_offset off i))
            (entry_pos p' i)
            (entry_size p (skip_offset off i))
    Same-bytes i h k lt = elim (place i h) [
      | inl (e, q) ↦ sym (
          ap p'.bytes (omega (arith, q))
          ∙ closes.lower (entry_pos p (skip_offset off i) + k)
              (omega (arith, valid.low _ (skip_within i h))) (omega arith))
      | inr (e, q) ↦ sym (
          ap p'.bytes (omega (arith, q))
          ∙ closes.upper (entry_pos p (skip_offset off i) + k) (omega arith))
    ]

    pub Closes-Alike :
        (i : ℕ)
        → i < p'.item_num
        → Alike p.bytes p'.bytes (entry_pos p (skip_offset off i)) (entry_pos p' i) p.is_leaf
    Closes-Alike i h =
        entry_agree p.bytes p'.bytes _ _ p.is_leaf (valid.high _ (skip_within i h))
          (fits (place i h)) (Same-bytes i h)
      where
        fits :
            ((entry_end p (skip_offset off i) ≤ entry_pos p off)
                × (entry_pos p' i ≡ entry_pos p (skip_offset off i) + entry_size p off))
              ⊎ ((entry_end p off ≤ entry_pos p (skip_offset off i))
                  × (entry_pos p' i ≡ entry_pos p (skip_offset off i)))
            → entry_pos p' i + entry_size p (skip_offset off i) ≤ page_size
        fits (inl (e, q)) = omega (arith, valid.high off closes.within)
        fits (inr (e, q)) = omega (arith, valid.high _ (skip_within i h))

    Closes-size : (i : ℕ) → i < p'.item_num → entry_size p' i ≡ entry_size p (skip_offset off i)
    Closes-size i h =
        ap (λ l. size_at l p'.bytes (entry_pos p' i)) closes.kind ∙ sym ((Closes-Alike i h).size)

    new_low : (i : ℕ) → i < p'.item_num → p'.free_end ≤ entry_pos p' i
    new_low i h = elim (place i h) [
      | inl (e, q) ↦ omega (arith, closes.stop, valid.low _ (skip_within i h))
      | inr (e, q) ↦ omega (arith, closes.stop, valid.low off closes.within)
    ]

    new_high : (i : ℕ) → i < p'.item_num → entry_end p' i ≤ page_size
    new_high i h = elim (place i h) [
      | inl (e, q) ↦ omega (arith, Closes-size i h, valid.high off closes.within)
      | inr (e, q) ↦ omega (arith, Closes-size i h, valid.high _ (skip_within i h))
    ]

    skip_injective : (i j : ℕ) → i ≢ j → skip_offset off i ≢ skip_offset off j
    skip_injective i j ne = ground arith

    new_apart :
        (i j : ℕ)
        → i < p'.item_num
        → j < p'.item_num
        → i ≢ j
        → (entry_end p' i ≤ entry_pos p' j) ⊎ (entry_end p' j ≤ entry_pos p' i)
    new_apart i j h k ne = grind (
      arith,
      place i h,
      place j k,
      Closes-size i h,
      Closes-size j k,
      valid.apart _ _ (skip_within i h) (skip_within j k) (skip_injective i j ne),
    )

    pub Closes-IsValid : IsValid p'
    Closes-IsValid = record {
      start = omega (arith, closes.slots, closes.count, valid.start);
      room = omega (arith, closes.slots, closes.stop, valid.room);
      top = omega (arith, closes.stop, valid.low off closes.within, valid.high off closes.within);
      low = new_low;
      high = new_high;
      apart = new_apart;
    }

    left_key :
        (i : ℕ)
        → i < p'.item_num
        → key_at p'.bytes (entry_pos p' i) ≡ key_at p.bytes (entry_pos p (skip_offset off i))
    left_key i h = sym ((Closes-Alike i h).key)

    -- The remaining entries in order, the removed one skipped.
    pub Closes-pivot :
        (i : ℕ)
        → i < p'.item_num
        → page_read_pivot_at_offset p' i ≡ page_read_pivot_at_offset p (skip_offset off i)
    Closes-pivot i h = pivot-key_at p' i h ∙ left_key i h ∙ sym (pivot-key_at p _ (skip_within i h))

    pub Closes-leaf :
        (i : ℕ)
        → p.is_leaf ≡ true
        → i < p'.item_num
        → decode_leaf_entry p' i ≡ decode_leaf_entry p (skip_offset off i)
    unfolding decode_leaf_entry
    Closes-leaf i leaf h =
        let val_kept = sym ((Closes-Alike i h).val leaf) in λ t. (left_key i h t, val_kept t)

    pub Closes-index :
        (i : ℕ)
        → i < p'.item_num
        → decode_index_entry p' i ≡ decode_index_entry p (skip_offset off i)
    unfolding decode_index_entry
    Closes-index i h =
        let child_kept = sym ((Closes-Alike i h).child) in λ t. (left_key i h t, child_kept t)

    pub Closes-IsSorted : IsSorted p → IsSorted p'
    Closes-IsSorted sorted i j h k =
        rw (Closes-pivot i (omega arith), Closes-pivot j k)
          (sorted _ _ (ground arith) (skip_within j k))
