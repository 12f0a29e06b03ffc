-- ===== src/TreePage/Memory.antt =====
-- The bytes of a page and the C library calls on them: reads, `memcpy` and `memmove`.
use aha_adaptive_hotspot_awa.Common.{
  ℕ, zero, suc, ◌+◌, ◌-◌, ◌≤◌, ◌<◌, ◌≡◌, refl, ap, ◌∙◌, ◌⊎◌, inl, inr, List, [], ◌∷◌, ◌&&◌, arith,
  ltb, leb, if◌then◌else◌, length, get_or,
}

abbrev pub Bytes : Type 0
Bytes = ℕ → ℕ

-- `Slice(page + pos, n)`
unfoldable pub read : Bytes → ℕ → ℕ → List ℕ
read m pos zero = []
read m pos (suc n) = m pos ∷ read m (pos + 1) n

-- `memcpy(page + pos, xs.data(), xs.size())`
unfoldable pub memcpy : Bytes → ℕ → List ℕ → Bytes
memcpy m pos xs = λ i. if leb pos i && ltb i (pos + length xs) then get_or xs (i - pos) 0 else m i

-- `memmove(page + to, page + from, n)`
unfoldable pub memmove : Bytes → ℕ → ℕ → ℕ → Bytes
memmove m to from n = λ i. if leb to i && ltb i (to + n) then m (from + (i - to)) else m i

pub length-read : (m : Bytes) (pos n : ℕ) → length (read m pos n) ≡ n
unfolding read
length-read m pos zero = refl
length-read m pos (suc n) = ap suc (length-read m (pos + 1) n)

-- Two memories that agree on a range read alike there.
pub read_agree :
    (m m' : Bytes) (pos pos' n : ℕ)
    → ((k : ℕ) → k < n → m (pos + k) ≡ m' (pos' + k))
    → read m pos n ≡ read m' pos' n
unfolding read
read_agree m m' pos pos' zero h = refl
read_agree m m' pos pos' (suc n) h =
    let head : m pos ≡ m' pos' = ap m (omega arith) ∙ h 0 (omega arith) ∙ ap m' (omega arith) in
    let tail =
      read_agree m m' (pos + 1) (pos' + 1) n
        λ k lt. ap m (omega arith) ∙ h (suc k) (omega arith) ∙ ap m' (omega arith) in
    cc

pub memcpy_out :
    (m : Bytes) (pos : ℕ) (xs : List ℕ) (i : ℕ)
    → (i < pos) ⊎ (pos + length xs ≤ i)
    → memcpy m pos xs i ≡ m i
unfolding memcpy
memcpy_out m pos xs i h = ground arith

pub memcpy_in :
    (m : Bytes) (pos : ℕ) (xs : List ℕ) (k : ℕ)
    → k < length xs
    → memcpy m pos xs (pos + k) ≡ get_or xs k 0
unfolding memcpy
memcpy_in m pos xs k h = ground arith

pub memmove_out :
    (m : Bytes) (to from n i : ℕ) → (i < to) ⊎ (to + n ≤ i) → memmove m to from n i ≡ m i
unfolding memmove
memmove_out m to from n i h = ground arith

pub memmove_in : (m : Bytes) (to from n k : ℕ) → k < n → memmove m to from n (to + k) ≡ m (from + k)
unfolding memmove
memmove_in m to from n k h = ground arith

-- What a copy or a move does not touch reads as before.
pub read-memcpy_out :
    (m : Bytes) (pos : ℕ) (xs : List ℕ) (p n : ℕ)
    → (p + n ≤ pos) ⊎ (pos + length xs ≤ p)
    → read (memcpy m pos xs) p n ≡ read m p n
read-memcpy_out m pos xs p n h =
    read_agree _ _ p p n λ k lt. memcpy_out m pos xs (p + k) (shift h k lt)
  where
    shift :
        (p + n ≤ pos) ⊎ (pos + length xs ≤ p)
        → (k : ℕ) → k < n
        → (p + k < pos) ⊎ (pos + length xs ≤ p + k)
    shift (inl a) k lt = inl (omega arith)
    shift (inr a) k lt = inr (omega arith)

read-get_or :
    (m : Bytes) (pos : ℕ) (xs : List ℕ)
    → ((k : ℕ) → k < length xs → m (pos + k) ≡ get_or xs k 0)
    → read m pos (length xs) ≡ xs
unfolding read
read-get_or m pos [] h = refl
read-get_or m pos (x ∷ xs) h =
    let head : m pos ≡ x = ap m (omega arith) ∙ h 0 (omega arith) in
    let tail = read-get_or m (pos + 1) xs λ k lt. ap m (omega arith) ∙ h (suc k) (omega arith) in cc

-- What was copied is read back.
pub read-memcpy_self :
    (m : Bytes) (pos : ℕ) (xs : List ℕ) → read (memcpy m pos xs) pos (length xs) ≡ xs
read-memcpy_self m pos xs = read-get_or _ pos xs (memcpy_in m pos xs)

pub read-memmove_out :
    (m : Bytes) (to from n p l : ℕ)
    → (p + l ≤ to) ⊎ (to + n ≤ p)
    → read (memmove m to from n) p l ≡ read m p l
read-memmove_out m to from n p l h =
    read_agree _ _ p p l λ k lt. memmove_out m to from n (p + k) (shift h k lt)
  where
    shift : (p + l ≤ to) ⊎ (to + n ≤ p) → (k : ℕ) → k < l → (p + k < to) ⊎ (to + n ≤ p + k)
    shift (inl a) k lt = inl (omega arith)
    shift (inr a) k lt = inr (omega arith)

-- What was moved is read back at its new place.
pub read-memmove_in :
    (m : Bytes) (to from n d l : ℕ)
    → d + l ≤ n
    → read (memmove m to from n) (to + d) l ≡ read m (from + d) l
read-memmove_in m to from n d l h = read_agree _ _ (to + d) (from + d) l λ k lt.
    ap (memmove m to from n) (omega arith)
    ∙ memmove_in m to from n (d + k) (omega arith)
    ∙ ap m (omega arith)
