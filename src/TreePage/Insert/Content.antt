-- ===== src/TreePage/Insert/Content.antt =====
-- The bytes of a written entry: what is read back from them and what they leave alone.
use aha_adaptive_hotspot_awa.Common.{
  ℕ, ◌+◌, ◌≤◌, ◌<◌, ◌≡◌, ap, ◌∙◌, sym, inl, List, length, arith, word_mod,
}
use aha_adaptive_hotspot_awa.Leveldb.{Leveldb, encode, decode}
use aha_adaptive_hotspot_awa.TreePage.Memory.{
  Bytes, read, memcpy, read-memcpy_self, read-memcpy_out,
}
use aha_adaptive_hotspot_awa.TreePage.Layout.{page_size, decode_int32_at, key_at, val_at, child_at}
use aha_adaptive_hotspot_awa.TreePage.Insert.{write_head, write_index_bytes, write_leaf_bytes}

module _ ⦃L : Leveldb⦄ where
  read_encoded : (m : Bytes) (pos x : ℕ) → read (memcpy m pos (encode x)) pos 4 ≡ encode x
  read_encoded m pos x =
      ap (read (memcpy m pos (encode x)) pos) (sym (L.length_encode x))
      ∙ read-memcpy_self m pos (encode x)

  head_size :
      (m : Bytes) (up : ℕ) (key : List ℕ) → read (write_head m up key) up 4 ≡ encode (length key)
  unfolding write_head
  head_size m up key =
      read-memcpy_out _ (up + 4) key up 4 (inl (omega arith)) ∙ read_encoded m up (length key)

  head_key :
      (m : Bytes) (up : ℕ) (key : List ℕ) → read (write_head m up key) (up + 4) (length key) ≡ key
  unfolding write_head
  head_key m up key = read-memcpy_self _ (up + 4) key

  -- A position whose four bytes encode a number decodes to it.
  pub decode_of_read :
      (m : Bytes) (pos x : ℕ)
      → pos + 4 ≤ page_size
      → x < word_mod
      → read m pos 4 ≡ encode x
      → decode_int32_at m pos ≡ x
  unfolding decode_int32_at
  decode_of_read m pos x h lt e =
      ap decode (ap (λ q. read m q 4) (omega arith) ∙ e) ∙ L.decode_encode x lt

  -- The four parts of a leaf entry, as they are read back.
  pub record LeafBytes (m : Bytes) (up : ℕ) (key val : List ℕ) : Type 0 where
    pub size : read m up 4 ≡ encode (length key)
    pub key_part : read m (up + 4) (length key) ≡ key
    pub val_size : read m (up + 4 + length key) 4 ≡ encode (length val)
    pub val_part : read m (up + 8 + length key) (length val) ≡ val

  pub write_leaf_bytes-LeafBytes :
      (m : Bytes) (up : ℕ) (key val : List ℕ) → LeafBytes (write_leaf_bytes m up key val) up key val
  unfolding write_leaf_bytes
  write_leaf_bytes-LeafBytes m up key val = record {
    size =
        read-memcpy_out _ _ val up 4 (inl (omega arith))
        ∙ read-memcpy_out _ _ (encode (length val)) up 4 (inl (omega arith))
        ∙ head_size m up key;
    key_part =
        read-memcpy_out _ _ val (up + 4) (length key) (inl (omega arith))
        ∙ read-memcpy_out _ _ (encode (length val)) (up + 4) (length key) (inl (omega arith))
        ∙ head_key m up key;
    val_size =
        read-memcpy_out _ _ val (up + 4 + length key) 4 (inl (omega arith))
        ∙ read_encoded _ (up + 4 + length key) (length val);
    val_part =
        ap (λ q. read (write_leaf_bytes m up key val) q (length val)) (omega arith)
        ∙ read-memcpy_self _ (up + 4 + length key + 4) val;
  }

  pub record IndexBytes (m : Bytes) (up : ℕ) (key : List ℕ) (child : ℕ) : Type 0 where
    pub size : read m up 4 ≡ encode (length key)
    pub key_part : read m (up + 4) (length key) ≡ key
    pub child_part : read m (up + 4 + length key) 4 ≡ encode child

  pub write_index_bytes-IndexBytes :
      (m : Bytes) (up : ℕ) (key : List ℕ) (child : ℕ)
      → IndexBytes (write_index_bytes m up key child) up key child
  unfolding write_index_bytes
  write_index_bytes-IndexBytes m up key child = record {
    size = read-memcpy_out _ _ (encode child) up 4 (inl (omega arith)) ∙ head_size m up key;
    key_part =
        read-memcpy_out _ _ (encode child) (up + 4) (length key) (inl (omega arith))
        ∙ head_key m up key;
    child_part = read_encoded _ (up + 4 + length key) child;
  }

  -- The entry decodes to what was written.
  pub LeafBytes-decode :
      (m : Bytes) (up : ℕ) (key val : List ℕ)
      → up + (length key + 8 + length val) ≤ page_size
      → LeafBytes m up key val
      → (decode_int32_at m up ≡ length key)
        × (decode_int32_at m (up + 4 + length key) ≡ length val)
        × (key_at m up ≡ key)
        × (val_at m up ≡ val)
  unfolding key_at val_at
  LeafBytes-decode m up key val h b =
      let ks = decode_of_read m up (length key) (omega arith) (omega arith) b.size in
      let vs =
        decode_of_read m (up + 4 + length key) (length val) (omega arith) (omega arith)
          b.val_size in
      (ks, vs, rw ks b.key_part, rw (ks, vs) b.val_part)

  pub IndexBytes-decode :
      (m : Bytes) (up : ℕ) (key : List ℕ) (child : ℕ)
      → up + (length key + 8) ≤ page_size
      → child < word_mod
      → IndexBytes m up key child
      → (decode_int32_at m up ≡ length key) × (key_at m up ≡ key) × (child_at m up ≡ child)
  unfolding key_at child_at
  IndexBytes-decode m up key child h lt b =
      let ks = decode_of_read m up (length key) (omega arith) (omega arith) b.size in
      (
        ks,
        rw ks b.key_part,
        rw ks (decode_of_read m (up + 4 + length key) child (omega arith) lt b.child_part),
      )

  -- Bytes outside the entry stay.
  pub write_leaf_bytes_out :
      (m : Bytes) (up : ℕ) (key val : List ℕ) (a : ℕ)
      → up + (length key + 8 + length val) ≤ a
      → write_leaf_bytes m up key val a ≡ m a
  unfolding write_leaf_bytes write_head memcpy
  write_leaf_bytes_out m up key val a h =
      ground (arith, L.length_encode (length key), L.length_encode (length val))

  pub write_index_bytes_out :
      (m : Bytes) (up : ℕ) (key : List ℕ) (child a : ℕ)
      → up + (length key + 8) ≤ a
      → write_index_bytes m up key child a ≡ m a
  unfolding write_index_bytes write_head memcpy
  write_index_bytes_out m up key child a h =
      ground (arith, L.length_encode (length key), L.length_encode child)

  pub write_leaf_bytes_below :
      (m : Bytes) (up : ℕ) (key val : List ℕ) (a : ℕ)
      → a < up
      → write_leaf_bytes m up key val a ≡ m a
  unfolding write_leaf_bytes write_head memcpy
  write_leaf_bytes_below m up key val a h =
      ground (arith, L.length_encode (length key), L.length_encode (length val))

  pub write_index_bytes_below :
      (m : Bytes) (up : ℕ) (key : List ℕ) (child a : ℕ)
      → a < up
      → write_index_bytes m up key child a ≡ m a
  unfolding write_index_bytes write_head memcpy
  write_index_bytes_below m up key child a h =
      ground (arith, L.length_encode (length key), L.length_encode child)
