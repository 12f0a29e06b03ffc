-- ===== src/TreePage/Remove/Offset.antt =====
-- `PageRemoveOffset` on a well-formed page. The size of the gap is read behind the shift of the
-- slots, so it is that of the next entry.
use aha_adaptive_hotspot_awa.Common.{
  ℕ, ◌+◌, ◌-◌, ◌≤◌, ◌<◌, ◌≡◌, refl, inl, inr, true, arith, ap, ◌∙◌, dec_lt, sym, add32, add32_small,
  sub32_small,
}
use aha_adaptive_hotspot_awa.Leveldb.{Leveldb}
use aha_adaptive_hotspot_awa.TreePage.Memory.{Bytes, memmove, memmove_out, memmove_in, length-read}
use aha_adaptive_hotspot_awa.TreePage.Layout.{
  Page, page_size, slot_at, entry_pos, decode_int32_at, key_at, val_at, decode_leaf_entry,
  decode_index_entry,
}
use aha_adaptive_hotspot_awa.TreePage.Entries.{decode_agree, size_at, tail_size, entry_agree}
use aha_adaptive_hotspot_awa.TreePage.Valid.{IsValid, entry_size, entry_end}
use aha_adaptive_hotspot_awa.TreePage.Remove.{
  shift_slots_left, fix_slots, gap_size, page_remove_offset,
}
use aha_adaptive_hotspot_awa.TreePage.Remove.Closed.{Closes, skip_offset, moved_pos}
use aha_adaptive_hotspot_awa.TreePage.Remove.Slots.{
  shift_outside, shift_slot, fix_slots_outside, fix_slots_slot,
}

module _ ⦃L : Leveldb⦄ where
  gap_size-entry_size : (p : Page) (off : ℕ) → gap_size p off ≡ entry_size p off
  unfolding gap_size size_at tail_size decode_leaf_entry decode_index_entry key_at val_at
  gap_size-entry_size p off = ground (
    arith,
    length-read p.bytes (entry_pos p off + 4) (decode_int32_at p.bytes (entry_pos p off)),
    length-read p.bytes (entry_pos p off + 8 + decode_int32_at p.bytes (entry_pos p off))
        (decode_int32_at p.bytes (entry_pos p off + 4 + decode_int32_at p.bytes (entry_pos p off))),
  )

  module _ (p : Page) (off : ℕ) (valid : IsValid p) (within : off < p.item_num) where
    small : p.item_num < 2039
    small = omega (arith, valid.start, valid.room, valid.top)

    slots_below : slot_at p.item_num ≤ p.free_end
    slots_below = omega (arith, valid.start, valid.room, valid.top)

    shifted : Page
    shifted = record p { bytes = shift_slots_left p off }

    above : (a : ℕ) → p.free_end ≤ a → shift_slots_left p off a ≡ p.bytes a
    above a h = shift_outside p off within small a (inr (omega (arith, slots_below)))

    unshifted : ¬ (off + 1 < p.item_num) → shift_slots_left p off ≡ p.bytes
    unfolding shift_slots_left
    unshifted h = ground arith

    gap_last : ¬ (off + 1 < p.item_num) → entry_size shifted off ≡ entry_size p off
    unfolding shifted
    gap_last h = ap (λ b. entry_size (record p { bytes = b }) off) (unshifted h)

    pos_next : off + 1 < p.item_num → entry_pos shifted off ≡ entry_pos p (off + 1)
    unfolding shifted entry_pos
    pos_next h = shift_slot p off within small off h ∙ ap (entry_pos p) (ground arith)

    gap_next : off + 1 < p.item_num → entry_size shifted off ≡ entry_size p (off + 1)
    unfolding shifted
    gap_next h =
        ap (size_at p.is_leaf (shift_slots_left p off)) (pos_next h)
        ∙ sym (
            (entry_agree p.bytes (shift_slots_left p off) (entry_pos p (off + 1))
              (entry_pos p (off + 1)) p.is_leaf (valid.high (off + 1) h) (valid.high (off + 1) h)
              λ k lt. sym (above _ (omega (arith, valid.low (off + 1) h)))).size)

    -- On a well-formed page the removal of an entry that is not the last gives back as many bytes as
    -- the next entry has.
    pub page_remove_offset-free_end :
        off + 1 < p.item_num
        → (page_remove_offset p off).free_end ≡ p.free_end + entry_size p (off + 1)
    unfolding page_remove_offset shifted
    page_remove_offset-free_end h =
        ap (add32 p.free_end) (gap_size-entry_size shifted off ∙ gap_next h)
        ∙ add32_small p.free_end (entry_size p (off + 1))
            (omega (arith, valid.low (off + 1) h, valid.high (off + 1) h))

    module _ (alike : off + 1 < p.item_num → entry_size p (off + 1) ≡ entry_size p off) where
      gap : gap_size shifted off ≡ entry_size p off
      gap =
          gap_size-entry_size shifted off
          ∙ elim (dec_lt (off + 1) p.item_num) [ yes h ↦ gap_next h ∙ alike h | no h ↦ gap_last h ]

      open_end : ℕ
      open_end = p.free_end + entry_size p off

      closed : Bytes
      closed = memmove (shift_slots_left p off) open_end p.free_end (entry_pos p off - p.free_end)

      removed : Page
      removed = record p {
        free_start = p.free_start - 4;
        free_end = open_end;
        item_num = p.item_num - 1;
        is_dirty = true;
        bytes = fix_slots closed (entry_pos p off) (entry_size p off) 0 (p.item_num - 1);
      }

      -- In range no difference or sum wraps.
      page_remove_offset-removed : page_remove_offset p off ≡ removed
      unfolding page_remove_offset removed closed open_end shifted
      page_remove_offset-removed =
          let stop =
            ap (add32 p.free_end) gap
            ∙ add32_small p.free_end (entry_size p off)
                (omega (arith, valid.low off within, valid.high off within)) in
          let items = sub32_small p.item_num 1 (omega arith) (omega (arith, small)) in
          let start =
            sub32_small p.free_start 4 (omega (arith, valid.start))
              (omega (arith, valid.room, valid.top)) in
          let length_moved =
            sub32_small (entry_pos p off) p.free_end (valid.low off within)
              (omega (arith, valid.high off within)) in
          λ i. record p {
            free_start = start i;
            free_end = stop i;
            item_num = items i;
            is_dirty = true;
            bytes =
                fix_slots
                  (memmove (shift_slots_left p off) (p.free_end + gap i) p.free_end
                    (length_moved i))
                  (entry_pos p off) (gap i) 0 (items i);
          }

      closed_slot :
          (i : ℕ)
          → i + 1 < p.item_num
          → decode_int32_at closed (slot_at i) ≡ entry_pos p (skip_offset off i)
      unfolding closed open_end
      closed_slot i h =
          decode_agree closed (shift_slots_left p off) (slot_at i) (slot_at i)
            (omega (arith, slots_below, valid.top)) (omega (arith, slots_below, valid.top))
            (λ k lt. memmove_out _ _ _ _ (slot_at i + k) (inl (omega (arith, slots_below, small))))
          ∙ shift_slot p off within small i h

      skip_high : (i : ℕ) → i + 1 < p.item_num → entry_pos p (skip_offset off i) ≤ page_size
      skip_high i h = omega (arith, valid.high (skip_offset off i) (ground arith))

      beyond_slots : (a : ℕ) → p.free_end ≤ a → removed.bytes a ≡ closed a
      unfolding removed
      beyond_slots a h =
          fix_slots_outside _ _ closed 0 (p.item_num - 1) a (omega (arith, small))
            (inr (omega (arith, slots_below)))

      open_end_lem : open_end ≡ p.free_end + entry_size p off
      unfolding open_end
      open_end_lem = refl

      closed_lower :
          (a : ℕ) → p.free_end ≤ a → a < entry_pos p off → closed (a + entry_size p off) ≡ p.bytes a
      unfolding closed
      closed_lower a h k =
          ap closed (omega (arith, open_end_lem))
          ∙ memmove_in (shift_slots_left p off) open_end p.free_end _ (a - p.free_end) (omega arith)
          ∙ ap (shift_slots_left p off) (omega arith)
          ∙ above a h

      closed_upper : (a : ℕ) → entry_end p off ≤ a → closed a ≡ p.bytes a
      unfolding closed
      closed_upper a h =
          memmove_out (shift_slots_left p off) open_end p.free_end _ a
            (inr (omega (arith, open_end_lem, valid.low off within)))
          ∙ above a (omega (arith, valid.low off within))

      removed-Closes : Closes p removed off
      unfolding removed entry_pos
      removed-Closes = record {
        within = within;
        kind = refl;
        count = omega arith;
        slots = omega (arith, valid.start);
        stop = open_end_lem;
        moved = λ i h.
            fix_slots_slot _ _ closed 0 (p.item_num - 1) i (omega (arith, small)) (omega arith)
              (omega arith)
              (omega (
                arith,
                closed_slot i (omega arith),
                skip_high i (omega arith),
                valid.high off within,
              ))
            ∙ ap (moved_pos (entry_pos p off) (entry_size p off)) (closed_slot i (omega arith));
        lower = λ a h k. beyond_slots _ (omega arith) ∙ closed_lower a h k;
        upper = λ a h. beyond_slots _ (omega (arith, valid.low off within)) ∙ closed_upper a h;
      }

      -- The entry leaves: the entries below it move up by its size and decode as before.
      pub page_remove_offset-Closes : Closes p (page_remove_offset p off) off
      page_remove_offset-Closes = rw page_remove_offset-removed removed-Closes
