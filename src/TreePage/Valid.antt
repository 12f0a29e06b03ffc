-- ===== src/TreePage/Valid.antt =====
-- Well-formed pages, and what holds when an entry joins one: the entries that were there decode
-- as before.
use aha_adaptive_hotspot_awa.Common.{
  ℕ, ◌+◌, ◌*◌, ◌-◌, ◌≤◌, ◌<◌, ◌≡◌, ap, ◌∙◌, sym, ◌≢◌, ◌⊎◌, inl, inr, arith, dec_lt, ℕ_discrete,
}
use mathlib.Core.Logic.{ite, if_pos, if_neg}
use aha_adaptive_hotspot_awa.Leveldb.{Leveldb}
use aha_adaptive_hotspot_awa.TreePage.Layout.{Page, page_size, pg_hd_size, entry_pos}
use aha_adaptive_hotspot_awa.TreePage.Entries.{size_at, Alike, entry_agree}

-- Where the entry at an offset of the new page came from.
abbrev pub old_offset : ℕ → ℕ → ℕ
old_offset off i = ite (dec_lt i off) i (i - 1)

module _ ⦃L : Leveldb⦄ where
  -- The bytes that an entry of the page takes.
  abbrev pub entry_size : Page → ℕ → ℕ
  entry_size p i = size_at p.is_leaf p.bytes (entry_pos p i)

  abbrev pub entry_end : Page → ℕ → ℕ
  entry_end p i = entry_pos p i + entry_size p i

  -- The slots end where the free space starts, the entries begin where it ends, each entry lies
  -- in the page, and no two overlap.
  pub record IsValid (p : Page) : Type 0 where
    pub start : p.free_start ≡ pg_hd_size + p.item_num * 4
    pub room : p.free_start ≤ p.free_end
    pub top : p.free_end ≤ page_size
    pub low : (i : ℕ) → i < p.item_num → p.free_end ≤ entry_pos p i
    pub high : (i : ℕ) → i < p.item_num → entry_end p i ≤ page_size
    pub apart :
        (i j : ℕ)
        → i < p.item_num
        → j < p.item_num
        → i ≢ j
        → (entry_end p i ≤ entry_pos p j) ⊎ (entry_end p j ≤ entry_pos p i)

  -- An entry joins at an offset, directly below those that are there.
  pub record Joins (p p' : Page) (off : ℕ) : Type 0 where
    pub offset : off ≤ p.item_num
    pub kind : p'.is_leaf ≡ p.is_leaf
    pub count : p'.item_num ≡ p.item_num + 1
    pub slots : p'.free_start ≡ p.free_start + 4
    pub fits : p'.free_start ≤ p'.free_end
    pub before : (i : ℕ) → i < off → entry_pos p' i ≡ entry_pos p i
    pub self : entry_pos p' off ≡ p'.free_end
    pub behind : (i : ℕ) → off ≤ i → i < p.item_num → entry_pos p' (i + 1) ≡ entry_pos p i
    pub kept : (a : ℕ) → p.free_end ≤ a → p'.bytes a ≡ p.bytes a
    pub ends : entry_end p' off ≡ p.free_end

  module _ (p p' : Page) (off : ℕ) (valid : IsValid p) (joins : Joins p p' off) where
    pub Joins-pos :
        (i : ℕ) → i < p'.item_num → i ≢ off → entry_pos p' i ≡ entry_pos p (old_offset off i)
    Joins-pos i h ne = elim (dec_lt i off) [
      | yes small ↦ rw (if_pos _ small) (joins.before i small)
      | no big ↦ rw (if_neg _ big) (
          ap (entry_pos p') (omega (arith, joins.count))
          ∙ joins.behind (i - 1) (omega arith) (omega (arith, joins.count)))
    ]

    old_within : (i : ℕ) → i < p'.item_num → i ≢ off → old_offset off i < p.item_num
    old_within i h ne = ground (arith, joins.count, joins.offset)

    old_injective : (i j : ℕ) → i ≢ off → j ≢ off → i ≢ j → old_offset off i ≢ old_offset off j
    old_injective i j ni nj ne = ground arith

    -- An entry of the old page decodes as it did.
    pub Joins-Alike :
        (j : ℕ) → j < p.item_num → Alike p.bytes p'.bytes (entry_pos p j) (entry_pos p j) p.is_leaf
    Joins-Alike j h =
        entry_agree p.bytes p'.bytes (entry_pos p j) (entry_pos p j) p.is_leaf (valid.high j h)
          (valid.high j h)
          λ k lt. sym (joins.kept (entry_pos p j + k) (omega (arith, valid.low j h)))

    Joins-size :
        (i : ℕ) → i < p'.item_num → i ≢ off → entry_size p' i ≡ entry_size p (old_offset off i)
    Joins-size i h ne =
        ap (λ l. size_at l p'.bytes (entry_pos p' i)) joins.kind
        ∙ ap (size_at p.is_leaf p'.bytes) (Joins-pos i h ne)
        ∙ sym ((Joins-Alike (old_offset off i) (old_within i h ne)).size)

    lowered : p'.free_end ≤ p.free_end
    lowered = omega (arith, joins.ends, joins.self)

    above_old : (i : ℕ) → i < p'.item_num → i ≢ off → p.free_end ≤ entry_pos p' i
    above_old i h ne = rw (Joins-pos i h ne) (valid.low _ (old_within i h ne))

    both_old :
        (i j : ℕ)
        → i < p'.item_num
        → j < p'.item_num
        → i ≢ off
        → j ≢ off
        → (entry_end p (old_offset off i) ≤ entry_pos p (old_offset off j))
          ⊎ (entry_end p (old_offset off j) ≤ entry_pos p (old_offset off i))
        → (entry_end p' i ≤ entry_pos p' j) ⊎ (entry_end p' j ≤ entry_pos p' i)
    both_old i j h k ni nj (inl e) =
        inl (omega (arith, Joins-size i h ni, Joins-pos i h ni, Joins-pos j k nj))
    both_old i j h k ni nj (inr e) =
        inr (omega (arith, Joins-size j k nj, Joins-pos i h ni, Joins-pos j k nj))

    -- The new page is well-formed.
    pub Joins-IsValid : IsValid p'
    Joins-IsValid = record {
      start = omega (arith, joins.slots, joins.count, valid.start);
      room = joins.fits;
      top = omega (arith, lowered, valid.top);
      low = λ i h. elim (ℕ_discrete i off) [
        | yes e ↦ rw e (omega (arith, joins.self))
        | no ne ↦ omega (arith, lowered, above_old i h ne)
      ];
      high = λ i h. elim (ℕ_discrete i off) [
        | yes e ↦ rw e (omega (arith, joins.ends, valid.top))
        | no ne ↦
            omega (arith, Joins-size i h ne, Joins-pos i h ne, valid.high _ (old_within i h ne))
      ];
      apart = λ i j h k ne. elim (ℕ_discrete i off) [
        | yes e ↦ inl (rw e (omega (arith, joins.ends, above_old j k (λ f. ne (e ∙ sym f)))))
        | no ni ↦ elim (ℕ_discrete j off) [
          | yes e ↦ inr (rw e (omega (arith, joins.ends, above_old i h ni)))
          | no nj ↦
              both_old i j h k ni nj (
                valid.apart _ _ (old_within i h ni) (old_within j k nj)
                  (old_injective i j ni nj ne))
        ]
      ];
    }
