-- ===== src/TreePage/Entries.antt =====
-- Entries as ranges of bytes: where two memories agree on the range of an entry, it decodes alike.
use aha_adaptive_hotspot_awa.Common.{
  ℕ, ◌+◌, ◌≤◌, ◌<◌, ◌≡◌, ap, ◌∙◌, sym, Bool, true, arith, word_mod, if◌then◌else◌,
}
use aha_adaptive_hotspot_awa.Leveldb.{Leveldb, encode, decode}
use aha_adaptive_hotspot_awa.TreePage.Memory.{Bytes, read, read_agree, memcpy, read-memcpy_self}
use aha_adaptive_hotspot_awa.TreePage.Layout.{page_size, decode_int32_at, key_at, child_at, val_at}

-- The bytes from `pos` in one memory are those from `pos'` in the other.
abbrev pub Same : Bytes → Bytes → ℕ → ℕ → ℕ → Type 0
Same m m' pos pos' n = (k : ℕ) → k < n → m (pos + k) ≡ m' (pos' + k)

pub Same-part :
    (m m' : Bytes) (pos pos' n d l : ℕ)
    → Same m m' pos pos' n
    → d + l ≤ n
    → Same m m' (pos + d) (pos' + d) l
Same-part m m' pos pos' n d l h le k lt =
    ap m (omega arith) ∙ h (d + k) (omega arith) ∙ ap m' (omega arith)

module _ ⦃L : Leveldb⦄ where
  pub decode_agree :
      (m m' : Bytes) (pos pos' : ℕ)
      → pos + 4 ≤ page_size
      → pos' + 4 ≤ page_size
      → Same m m' pos pos' 4
      → decode_int32_at m pos ≡ decode_int32_at m' pos'
  unfolding decode_int32_at
  decode_agree m m' pos pos' h h' same = ap decode (
      ap (λ q. read m q 4) (omega arith)
      ∙ read_agree m m' pos pos' 4 same
      ∙ ap (λ q. read m' q 4) (omega arith))

  -- A number that was written is read back.
  pub decode-memcpy_self :
      (m : Bytes) (pos x : ℕ)
      → pos + 4 ≤ page_size
      → x < word_mod
      → decode_int32_at (memcpy m pos (encode x)) pos ≡ x
  unfolding decode_int32_at
  decode-memcpy_self m pos x h lt =
      ap decode (
        ap (λ q. read (memcpy m pos (encode x)) q 4) (omega arith)
        ∙ ap (read (memcpy m pos (encode x)) pos) (sym (L.length_encode x))
        ∙ read-memcpy_self m pos (encode x))
      ∙ L.decode_encode x lt

  -- The length of the second part of an entry: the value of a leaf, or the child that stands in
  -- place of the length of a value.
  unfoldable pub tail_size : Bool → Bytes → ℕ → ℕ
  tail_size leaf m pos = if leaf then decode_int32_at m (pos + 4 + decode_int32_at m pos) else 0

  -- The bytes that an entry takes.
  unfoldable pub size_at : Bool → Bytes → ℕ → ℕ
  size_at leaf m pos = 8 + decode_int32_at m pos + tail_size leaf m pos

  -- What an entry holds.
  pub record Alike (m m' : Bytes) (pos pos' : ℕ) (leaf : Bool) : Type 0 where
    pub size : size_at leaf m pos ≡ size_at leaf m' pos'
    pub key : key_at m pos ≡ key_at m' pos'
    pub val : leaf ≡ true → val_at m pos ≡ val_at m' pos'
    pub child : child_at m pos ≡ child_at m' pos'

  pub entry_agree :
      (m m' : Bytes) (pos pos' : ℕ) (leaf : Bool)
      → pos + size_at leaf m pos ≤ page_size
      → pos' + size_at leaf m pos ≤ page_size
      → Same m m' pos pos' (size_at leaf m pos)
      → Alike m m' pos pos' leaf
  unfolding size_at tail_size key_at val_at child_at
  entry_agree m m' pos pos' leaf h h' same = record {
    size = ground (arith, same_size, tail_word);
    key = rw (← same_size) (
        read_agree m m' (pos + 4) (pos' + 4) ks
          (Same-part m m' pos pos' _ 4 ks same (omega arith)));
    val = λ e.
        let long : 8 + ks + vs ≤ size_at leaf m pos = ground arith in
        rw (← tail_word, ← same_size)
          (read_agree m m' (pos + 8 + ks) (pos' + 8 + ks) vs
            λ k lt. ap m (omega arith) ∙ same (8 + ks + k) (omega arith) ∙ ap m' (omega arith));
    child = tail_word;
  }
    where
      ks : ℕ
      ks = decode_int32_at m pos

      vs : ℕ
      vs = decode_int32_at m (pos + 4 + ks)

      same_size : decode_int32_at m pos ≡ decode_int32_at m' pos'
      same_size =
          decode_agree m m' pos pos' (omega arith) (omega arith) λ k lt. same k (omega arith)

      tail_word :
          decode_int32_at m (pos + 4 + ks) ≡ decode_int32_at m' (pos' + 4 + decode_int32_at m' pos')
      tail_word = rw (← same_size) (
          decode_agree m m' (pos + 4 + ks) (pos' + 4 + ks) (omega arith) (omega arith)
            λ k lt. ap m (omega arith) ∙ same (4 + ks + k) (omega arith) ∙ ap m' (omega arith))
