-- ===== src/TreePage/Search/Find.antt =====
-- `PageFindOffset` on a leaf page whose pivots ascend: a key that is there and one that is not.
use aha_adaptive_hotspot_awa.Common.{
  ℕ, ◌<◌, ◌≡◌, ◌≢◌, inl, inr, true, false, none, some, Ordering, List, [], arith, ◌==◌, Bool-cases,
  dec_lt, sym,
}
use aha_adaptive_hotspot_awa.Leveldb.{Leveldb, compare_slices}
use aha_adaptive_hotspot_awa.TreePage.Layout.{Page, page_read_pivot_at_offset}
use aha_adaptive_hotspot_awa.TreePage.Search.{page_bin_search}
use aha_adaptive_hotspot_awa.TreePage.Search.Loop.{Falls}
use aha_adaptive_hotspot_awa.TreePage.Search.Bounds.{
  IsFloor, IsSorted, against, IsSorted-Falls, page_bin_search-IsFloor,
}
use aha_adaptive_hotspot_awa.TreePage.Update.{is_eq, page_find_offset}

-- A floor is the offset of the equal pivot, where there is one.
pub floor_eq :
    (c : ℕ → Ordering) (n r i : ℕ) → Falls c n → IsFloor c n r → i < n → c i ≡ Ordering.eq → r ≡ i
floor_eq c n r i falls floor h e = elim (dec_lt r i) [
  | yes small ↦ let f = floor.behind i small h in absurd (cc)
  | no other ↦ elim (dec_lt i r) [
    | yes big ↦
        let f = falls.above_eq i r big floor.within e in
        elim floor.reached [ inl z ↦ absurd (omega arith) | inr ne ↦ absurd (ne f) ]
    | no same ↦ omega arith
  ]
]

module _ ⦃L : Leveldb⦄ where
  pub compare_ne : (a b : List ℕ) → a ≢ b → is_eq (compare_slices a b) ≡ false
  compare_ne a b ne = elim (Bool-cases (is_eq (compare_slices a b))) [
    | inl e ↦ absurd (ne (L.compare_eq a b (ground arith)))
    | inr e ↦ e
  ]

  -- The pivot that equals the key is found.
  pub page_find_offset_hit :
      (p : Page) (key : List ℕ) (i : ℕ)
      → IsSorted p
      → i < p.item_num
      → page_read_pivot_at_offset p i ≡ key
      → page_find_offset p key ≡ some (some i)
  unfolding page_find_offset
  page_find_offset_hit p key i sorted h e =
      let (r, found, floor) = page_bin_search-IsFloor p key sorted (omega arith) in
      let at_i : against p key i ≡ Ordering.eq = rw e (L.compare_self key) in
      let same =
        floor_eq (against p key) p.item_num r i (IsSorted-Falls p key sorted) floor h at_i in
      rw (found, same, at_i, page_find_offset) (ground arith)

  page_find_offset_empty :
      (p : Page) (key : List ℕ)
      → p.is_leaf ≡ true
      → key ≢ []
      → p.item_num ≡ 0
      → page_find_offset p key ≡ some none
  unfolding page_find_offset page_bin_search page_read_pivot_at_offset
  page_find_offset_empty p key leaf some_key z = ground (arith, compare_ne key [] some_key)

  -- A key that no pivot equals is not.
  pub page_find_offset_miss :
      (p : Page) (key : List ℕ)
      → IsSorted p
      → p.is_leaf ≡ true
      → key ≢ []
      → ((i : ℕ) → i < p.item_num → page_read_pivot_at_offset p i ≢ key)
      → page_find_offset p key ≡ some none
  unfolding page_find_offset
  page_find_offset_miss p key sorted leaf some_key absent = elim (Bool-cases (p.item_num == 0)) [
    | inl z ↦ page_find_offset_empty p key leaf some_key (ground arith)
    | inr nz ↦
        let (r, found, floor) = page_bin_search-IsFloor p key sorted (ground arith) in
        let ne =
          compare_ne key (page_read_pivot_at_offset p r) (λ e. absent r floor.within (sym e)) in
        rw (found, page_find_offset) (ground arith)
  ]
