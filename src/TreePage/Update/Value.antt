-- ===== src/TreePage/Update/Value.antt =====
-- `PageUpdatePivotAt` on an entry of a well-formed leaf page.
use aha_adaptive_hotspot_awa.Common.{
  ℕ, ◌+◌, ◌*◌, ◌≤◌, ◌<◌, ◌≡◌, ◌≢◌, refl, ◌⊎◌, inl, inr, true, List, length, arith, ap, ◌∙◌,
  ℕ_discrete, sym, subst, ==_iff,
}
use aha_adaptive_hotspot_awa.Leveldb.{Leveldb}
use aha_adaptive_hotspot_awa.TreePage.Memory.{
  Bytes, memcpy, read, length-read, read-memcpy_self, read-memcpy_out, memcpy_out,
}
use aha_adaptive_hotspot_awa.TreePage.Layout.{
  Page, page_size, page_read_pivot_at_offset, decode_leaf_entry, key_at, val_at, entry_pos,
  decode_int32_at,
}
use aha_adaptive_hotspot_awa.TreePage.Entries.{size_at, tail_size, decode_agree}
use aha_adaptive_hotspot_awa.TreePage.Valid.{IsValid, entry_size, entry_end}
use aha_adaptive_hotspot_awa.TreePage.Search.Bounds.{IsSorted}
use aha_adaptive_hotspot_awa.TreePage.Insert.Order.{pivot-key_at}
use aha_adaptive_hotspot_awa.TreePage.Update.{page_update_pivot_at}
use aha_adaptive_hotspot_awa.TreePage.Update.Edits.{
  Edits, Edits-IsValid, Edits-pivot, Edits-leaf, Edits-pos,
}

module _ ⦃L : Leveldb⦄ where
  -- A leaf page where one value is replaced and all else is unchanged.
  pub record Updated (p p' : Page) (at : ℕ) (val : List ℕ) : Type 0 where
    pub valid : IsValid p'
    pub leaf : p'.is_leaf ≡ true
    pub count : p'.item_num ≡ p.item_num
    pub dirty : p'.is_dirty ≡ true
    pub pivots :
        (i : ℕ) → i < p.item_num → page_read_pivot_at_offset p' i ≡ page_read_pivot_at_offset p i
    pub entry : decode_leaf_entry p' at ≡ ((decode_leaf_entry p at).0, val)
    pub others : (i : ℕ) → i < p.item_num → i ≢ at → decode_leaf_entry p' i ≡ decode_leaf_entry p i

  pub Updated-IsSorted :
      (p p' : Page) (at : ℕ) (val : List ℕ) → IsSorted p → Updated p p' at val → IsSorted p'
  Updated-IsSorted p p' at val sorted u i j h k =
      rw (u.pivots i (omega (arith, u.count)), u.pivots j (omega (arith, u.count)))
        (sorted i j h (omega (arith, u.count)))

  -- The bytes behind an overwritten value.
  module _ (m : Bytes) (pos : ℕ) (val : List ℕ) (fits : pos + size_at true m pos ≤ page_size)
      (same : length val ≡ decode_int32_at m (pos + 4 + decode_int32_at m pos)) where
    new_bytes : Bytes
    new_bytes = memcpy m (pos + 4 * 2 + decode_int32_at m pos) val

    size_true : size_at true m pos ≡ 8 + decode_int32_at m pos + length val
    unfolding size_at tail_size
    size_true = omega (arith, same)

    key_size_kept : decode_int32_at new_bytes pos ≡ decode_int32_at m pos
    unfolding new_bytes
    key_size_kept =
        decode_agree new_bytes m pos pos (omega (arith, size_true)) (omega (arith, size_true))
          λ k lt. memcpy_out m _ val (pos + k) (inl (omega arith))

    val_size_kept :
        decode_int32_at new_bytes (pos + 4 + decode_int32_at m pos)
        ≡ decode_int32_at m (pos + 4 + decode_int32_at m pos)
    unfolding new_bytes
    val_size_kept =
        decode_agree new_bytes m _ _ (omega (arith, size_true)) (omega (arith, size_true))
          λ k lt. memcpy_out m _ val _ (inl (omega arith))

    new_key : key_at new_bytes pos ≡ key_at m pos
    unfolding key_at new_bytes
    new_key =
        ap (read new_bytes (pos + 4)) key_size_kept
        ∙ read-memcpy_out m _ val (pos + 4) (decode_int32_at m pos) (inl (omega arith))

    new_val : val_at new_bytes pos ≡ val
    unfolding val_at new_bytes
    new_val =
        rw (key_size_kept, val_size_kept, ← same)
          (read-memcpy_self m (pos + 4 * 2 + decode_int32_at m pos) val)

    new_size : size_at true new_bytes pos ≡ size_at true m pos
    unfolding size_at tail_size
    new_size = rw (key_size_kept, val_size_kept)

  module _ (p : Page) (at : ℕ) (val : List ℕ) (valid : IsValid p) (leaf : p.is_leaf ≡ true)
      (h : at < p.item_num) (same : length val ≡ length (decode_leaf_entry p at).1) where
    pos : ℕ
    pos = entry_pos p at

    same_size : length val ≡ decode_int32_at p.bytes (pos + 4 + decode_int32_at p.bytes pos)
    unfolding decode_leaf_entry val_at pos
    same_size = same ∙ length-read _ _ _

    fits : pos + size_at true p.bytes pos ≤ page_size
    unfolding pos
    fits = subst (λ l. pos + size_at l p.bytes pos ≤ page_size) leaf (valid.high at h)

    updated : Page
    updated = record p { is_dirty = true; bytes = new_bytes p.bytes pos val fits same_size }

    updated_result : page_update_pivot_at p at val ≡ (updated, true)
    unfolding page_update_pivot_at updated new_bytes pos
    updated_result = rw ((==_iff _ _).1 same_size)

    size_eq : entry_size p at ≡ 8 + decode_int32_at p.bytes pos + length val
    unfolding pos
    size_eq = ap (λ l. size_at l p.bytes pos) leaf ∙ size_true p.bytes pos val fits same_size

    updated-Edits : Edits p updated at
    unfolding updated new_bytes pos
    updated-Edits = record {
      within = h;
      kind = refl;
      count = refl;
      start = refl;
      stop = refl;
      outside = λ a o. memcpy_out p.bytes _ val a (outside_val a o);
      size =
          ap (λ l. size_at l updated.bytes pos) leaf
          ∙ new_size p.bytes pos val fits same_size
          ∙ ap (λ l. size_at l p.bytes pos) (sym leaf);
    }
      where
        outside_val :
            (a : ℕ)
            → (a < entry_pos p at) ⊎ (entry_end p at ≤ a)
            → (a < pos + 4 * 2 + decode_int32_at p.bytes pos)
              ⊎ (pos + 4 * 2 + decode_int32_at p.bytes pos + length val ≤ a)
        outside_val a (inl o) = inl (omega arith)
        outside_val a (inr o) = inr (omega (arith, size_eq))

    updated_key : key_at updated.bytes (entry_pos updated at) ≡ key_at p.bytes (entry_pos p at)
    unfolding updated pos
    updated_key =
        ap (key_at updated.bytes) (Edits-pos p updated at valid updated-Edits at h)
        ∙ new_key p.bytes pos val fits same_size

    updated_val : val_at updated.bytes (entry_pos updated at) ≡ val
    unfolding updated pos
    updated_val =
        ap (val_at updated.bytes) (Edits-pos p updated at valid updated-Edits at h)
        ∙ new_val p.bytes pos val fits same_size

    updated_pivots :
        (i : ℕ)
        → i < p.item_num
        → page_read_pivot_at_offset updated i ≡ page_read_pivot_at_offset p i
    unfolding updated
    updated_pivots i k = elim (ℕ_discrete i at) [
      | yes e ↦ rw e (pivot-key_at updated at h ∙ updated_key ∙ sym (pivot-key_at p at h))
      | no ne ↦ Edits-pivot p updated at valid updated-Edits i k ne
    ]

    updated-Updated : Updated p updated at val
    unfolding updated decode_leaf_entry
    updated-Updated = record {
      valid = Edits-IsValid p updated at valid updated-Edits;
      leaf = leaf;
      count = refl;
      dirty = refl;
      pivots = updated_pivots;
      entry = λ i. (updated_key i, updated_val i);
      others = λ i k ne. Edits-leaf p updated at valid updated-Edits i leaf k ne;
    }

    -- On a well-formed leaf page a value of the same length replaces the old one: the page stays
    -- well-formed, the other entries and all keys are as before, and the page is dirty.
    pub page_update_pivot_at-Updated :
        ((page_update_pivot_at p at val).1 ≡ true)
        × Updated p (page_update_pivot_at p at val).0 at val
    page_update_pivot_at-Updated = rw updated_result (refl, updated-Updated)
