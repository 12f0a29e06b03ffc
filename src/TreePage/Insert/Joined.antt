-- ===== src/TreePage/Insert/Joined.antt =====
-- Bytes with a new entry below the others, and a slot for it, join it to a well-formed page.
use aha_adaptive_hotspot_awa.Common.{
  ℕ, ◌+◌, ◌≤◌, ◌<◌, ◌≡◌, refl, ap, ◌∙◌, sym, true, false, arith, add32, add32_small, sub32_small,
  leb,
}
use aha_adaptive_hotspot_awa.Leveldb.{Leveldb}
use aha_adaptive_hotspot_awa.TreePage.Memory.{Bytes}
use aha_adaptive_hotspot_awa.TreePage.Layout.{
  Page, slot_at, decode_int32_at, entry_pos, page_get_free_space,
}
use aha_adaptive_hotspot_awa.TreePage.Entries.{size_at, Alike, entry_agree, decode_agree}
use aha_adaptive_hotspot_awa.TreePage.Valid.{IsValid, Joins}
use aha_adaptive_hotspot_awa.TreePage.Insert.{write_slot}
use aha_adaptive_hotspot_awa.TreePage.Insert.Slots.{
  write_slot_above, slot_before, slot_self, slot_behind,
}

module _ ⦃L : Leveldb⦄ where
  -- The page behind a write, from the bytes with the new entry.
  abbrev pub joined : Page → ℕ → ℕ → Bytes → Page
  joined p off up w = record p {
    free_end = up;
    free_start = add32 p.free_start 4;
    is_dirty = true;
    item_num = add32 p.item_num 1;
    bytes = write_slot w p.item_num off up;
  }

  module _ (p : Page) (off up total : ℕ) (w : Bytes) (valid : IsValid p) (le : off ≤ p.item_num)
      (fits : up + total ≡ p.free_end) (room : p.free_start + 4 ≤ up)
      (low : (a : ℕ) → a < up → w a ≡ p.bytes a) (high : (a : ℕ) → p.free_end ≤ a → w a ≡ p.bytes a)
      (sized : size_at p.is_leaf w up ≡ total) where
    small : p.item_num < 2038
    small = omega (arith, valid.start, valid.top)

    slots_end : slot_at p.item_num + 4 ≤ up
    slots_end = omega (arith, valid.start, valid.top)

    above : (a : ℕ) → up ≤ a → (joined p off up w).bytes a ≡ w a
    above a h =
        write_slot_above w p.item_num off up le (omega (arith, slots_end, valid.top))
          (omega (arith, small)) a (omega (arith, slots_end))

    old_slot : (i : ℕ) → i < p.item_num → decode_int32_at w (slot_at i) ≡ entry_pos p i
    unfolding entry_pos
    old_slot i h =
        let here : slot_at i + 4 ≤ up = omega (arith, slots_end, small) in
        decode_agree w p.bytes (slot_at i) (slot_at i) (omega (arith, valid.top))
          (omega (arith, valid.top)) λ k lt. low (slot_at i + k) (omega arith)

    pub joined-Alike : Alike w (joined p off up w).bytes up up p.is_leaf
    joined-Alike =
        entry_agree w (joined p off up w).bytes up up p.is_leaf (omega (arith, sized, valid.top))
          (omega (arith, sized, valid.top)) λ k lt. sym (above (up + k) (omega arith))

    new_slot : entry_pos (joined p off up w) off ≡ up
    unfolding entry_pos
    new_slot =
        slot_self w p.item_num off up le (omega (arith, slots_end, valid.top))
          (omega (arith, small)) (omega (arith, valid.top))

    pub joined-Joins : Joins p (joined p off up w) off
    unfolding entry_pos
    joined-Joins = record {
      offset = le;
      kind = refl;
      count = add32_small _ _ (omega (arith, small));
      slots = add32_small _ _ (omega (arith, valid.top));
      fits = omega (arith, add32_small p.free_start 4, valid.top);
      before = λ i h.
          slot_before w p.item_num off up le (omega (arith, slots_end, valid.top))
            (omega (arith, small)) i h
          ∙ old_slot i (omega arith);
      self = new_slot;
      behind = λ i h k.
          slot_behind w p.item_num off up le (omega (arith, slots_end, valid.top))
            (omega (arith, small)) i h k
          ∙ old_slot i k;
      kept = λ a h. above a (omega arith) ∙ high a h;
      ends = omega (
        arith,
        new_slot,
        ap (size_at p.is_leaf (joined p off up w).bytes) new_slot,
        joined-Alike.size,
        sized,
      );
    }

  -- The guard of the inserts, as a bound.
  pub guard_room :
      (p : Page) (x : ℕ)
      → IsValid p
      → leb (page_get_free_space p) x ≡ false
      → p.free_start + x < p.free_end
  unfolding page_get_free_space
  guard_room p x valid h =
      ground (arith, sub32_small p.free_end p.free_start, valid.room, valid.top)
