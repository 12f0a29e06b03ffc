-- ===== src/TreePage/Remove/Slots.antt =====
-- The slots behind a removal: first shifted left, then moved by the loop.
use aha_adaptive_hotspot_awa.Common.{
  ℕ, zero, suc, ◌+◌, ◌≤◌, ◌<◌, ◌≡◌, refl, ◌⊎◌, inl, inr, length, arith, ap, ◌∙◌, dec_lt, sym, subst,
  ltb, if◌then◌else◌, add32, add32_small, word_mod,
}
use aha_adaptive_hotspot_awa.Leveldb.{Leveldb, encode}
use aha_adaptive_hotspot_awa.TreePage.Memory.{Bytes, memcpy, memmove, memcpy_out}
use aha_adaptive_hotspot_awa.TreePage.Layout.{Page, slot_at, entry_pos, decode_int32_at}
use aha_adaptive_hotspot_awa.TreePage.Entries.{decode_agree, decode-memcpy_self}
use aha_adaptive_hotspot_awa.TreePage.Remove.{shift_slots_left, fix_slots}
use aha_adaptive_hotspot_awa.TreePage.Remove.Closed.{skip_offset, moved_pos}

module _ ⦃L : Leveldb⦄ where
  module _ (p : Page) (off : ℕ) (within : off < p.item_num) (small : p.item_num < 2039) where
    pub shift_outside :
        (a : ℕ)
        → (a < slot_at off) ⊎ (slot_at p.item_num ≤ a)
        → shift_slots_left p off a ≡ p.bytes a
    unfolding shift_slots_left memmove
    shift_outside a h = ground arith

    shift_inside :
        (a : ℕ)
        → slot_at off ≤ a
        → a + 4 < slot_at p.item_num
        → shift_slots_left p off a ≡ p.bytes (a + 4)
    unfolding shift_slots_left memmove
    shift_inside a h k = ground arith

    -- The shifted slots are those of the entries that remain.
    pub shift_slot :
        (i : ℕ)
        → i + 1 < p.item_num
        → decode_int32_at (shift_slots_left p off) (slot_at i) ≡ entry_pos p (skip_offset off i)
    unfolding entry_pos
    shift_slot i h = elim (dec_lt i off) [
      | yes low ↦
          decode_agree _ p.bytes (slot_at i) (slot_at i) (omega arith) (omega arith)
            (λ k lt. shift_outside (slot_at i + k) (inl (omega arith)))
          ∙ ap (λ j. decode_int32_at p.bytes (slot_at j)) (ground arith)
      | no high ↦
          decode_agree _ p.bytes (slot_at i) (slot_at (i + 1)) (omega arith) (omega arith) (λ k lt.
            shift_inside (slot_at i + k) (omega arith) (omega arith) ∙ ap p.bytes (omega arith))
          ∙ ap (λ j. decode_int32_at p.bytes (slot_at j)) (ground arith)
    ]

  module _ (pos gap : ℕ) where
    abbrev fixed : ℕ → ℕ
    fixed old = if ltb old pos then add32 old gap else old

    fixed_lem :
        (old : ℕ)
        → old + gap < word_mod
        → (fixed old ≡ moved_pos pos gap old) × (fixed old < word_mod)
    fixed_lem old h = (ground (arith, add32_small old gap h), ground (arith, add32_small old gap h))

    pub fix_slots_outside :
        (m : Bytes) (i rounds a : ℕ)
        → i + rounds < 2039
        → (a < slot_at i) ⊎ (slot_at (i + rounds) ≤ a)
        → fix_slots m pos gap i rounds a ≡ m a
    unfolding fix_slots
    fix_slots_outside m i zero a small h = refl
    fix_slots_outside m i (suc rounds) a small h =
        let x = fixed (decode_int32_at m (slot_at i)) in
        fix_slots_outside (memcpy m (slot_at i) (encode x)) (i + 1) rounds a (omega arith)
          (further h)
        ∙ memcpy_out m (slot_at i) (encode x) a (off_slot x h)
      where
        further :
            (a < slot_at i) ⊎ (slot_at (i + suc rounds) ≤ a)
            → (a < slot_at (i + 1)) ⊎ (slot_at (i + 1 + rounds) ≤ a)
        further (inl e) = inl (omega arith)
        further (inr e) = inr (omega arith)

        off_slot :
            (x : ℕ)
            → (a < slot_at i) ⊎ (slot_at (i + suc rounds) ≤ a)
            → (a < slot_at i) ⊎ (slot_at i + length (encode x) ≤ a)
        off_slot x (inl e) = inl e
        off_slot x (inr e) = inr (omega (arith, L.length_encode x))

    -- The loop adds the gap to each slot below the position.
    pub fix_slots_slot :
        (m : Bytes) (i rounds j : ℕ)
        → i + rounds < 2039
        → i ≤ j
        → j < i + rounds
        → decode_int32_at m (slot_at j) + gap < word_mod
        → decode_int32_at (fix_slots m pos gap i rounds) (slot_at j)
          ≡ moved_pos pos gap (decode_int32_at m (slot_at j))
    unfolding fix_slots
    fix_slots_slot m i zero j small le lt bound = absurd (omega arith)
    fix_slots_slot m i (suc rounds) j small le lt bound =
        let x = fixed (decode_int32_at m (slot_at i)) in
        let m' = memcpy m (slot_at i) (encode x) in
        elim (dec_lt i j) [
          | yes later ↦
              let kept : decode_int32_at m' (slot_at j) ≡ decode_int32_at m (slot_at j) =
                decode_agree m' m (slot_at j) (slot_at j) (omega arith) (omega arith) λ k l.
                  memcpy_out m (slot_at i) (encode x) _ (inr (omega (arith, L.length_encode x))) in
              fix_slots_slot m' (i + 1) rounds j (omega arith) (omega arith) (omega arith)
                (omega (arith, kept))
              ∙ ap (moved_pos pos gap) kept
          | no here ↦
              let same : j ≡ i = omega arith in
              let rest : decode_int32_at (fix_slots m' pos gap (i + 1) rounds) (slot_at i)
                  ≡ decode_int32_at m' (slot_at i) =
                decode_agree _ m' (slot_at i) (slot_at i) (omega arith) (omega arith)
                  λ k l. fix_slots_outside m' (i + 1) rounds _ (omega arith) (inl (omega arith)) in
              let value =
                fixed_lem (decode_int32_at m (slot_at i))
                  (subst (λ k. decode_int32_at m (slot_at k) + gap < word_mod) same bound) in
              ap (λ k. decode_int32_at (fix_slots m' pos gap (i + 1) rounds) (slot_at k)) same
              ∙ rest
              ∙ decode-memcpy_self m (slot_at i) x (omega arith) value.1
              ∙ value.0
              ∙ ap (λ k. moved_pos pos gap (decode_int32_at m (slot_at k))) (sym same)
        ]
