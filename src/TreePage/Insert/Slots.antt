-- ===== src/TreePage/Insert/Slots.antt =====
-- What `write_slot` leaves in the slots and elsewhere.
use aha_adaptive_hotspot_awa.Common.{ℕ, ◌+◌, ◌≤◌, ◌<◌, ◌≡◌, ap, ◌∙◌, arith, word_mod}
use aha_adaptive_hotspot_awa.Leveldb.{Leveldb}
use aha_adaptive_hotspot_awa.TreePage.Memory.{Bytes, memcpy, memmove}
use aha_adaptive_hotspot_awa.TreePage.Layout.{page_size, slot_at, decode_int32_at}
use aha_adaptive_hotspot_awa.TreePage.Entries.{decode_agree, decode-memcpy_self}
use aha_adaptive_hotspot_awa.TreePage.Insert.{write_slot}

module _ ⦃L : Leveldb⦄ (m : Bytes) (n off pos : ℕ) (le : off ≤ n) (room : slot_at n + 4 ≤ page_size)
    (small : n < 2048) where
  pub write_slot_below : (a : ℕ) → a < slot_at off → write_slot m n off pos a ≡ m a
  unfolding write_slot memcpy memmove
  write_slot_below a h = ground (arith, L.length_encode pos)

  pub write_slot_above : (a : ℕ) → slot_at n + 4 ≤ a → write_slot m n off pos a ≡ m a
  unfolding write_slot memcpy memmove
  write_slot_above a h = ground (arith, L.length_encode pos)

  write_slot_moved :
      (a : ℕ) → slot_at off ≤ a → a < slot_at n → write_slot m n off pos (a + 4) ≡ m a
  unfolding write_slot memcpy memmove
  write_slot_moved a h k = ground (arith, L.length_encode pos)

  pub slot_before :
      (i : ℕ)
      → i < off
      → decode_int32_at (write_slot m n off pos) (slot_at i) ≡ decode_int32_at m (slot_at i)
  slot_before i h =
      decode_agree _ m (slot_at i) (slot_at i) (omega arith) (omega arith)
        λ k lt. write_slot_below (slot_at i + k) (omega arith)

  pub slot_behind :
      (i : ℕ)
      → off ≤ i
      → i < n
      → decode_int32_at (write_slot m n off pos) (slot_at (i + 1)) ≡ decode_int32_at m (slot_at i)
  slot_behind i h k =
      decode_agree _ m (slot_at (i + 1)) (slot_at i) (omega arith) (omega arith) λ d lt.
        ap (write_slot m n off pos) (omega arith)
        ∙ write_slot_moved (slot_at i + d) (omega arith) (omega arith)

  pub slot_self : pos < word_mod → decode_int32_at (write_slot m n off pos) (slot_at off) ≡ pos
  unfolding write_slot
  slot_self h = decode-memcpy_self _ (slot_at off) pos (omega arith) h
