-- ===== src/PageIterator/Walk.antt =====
-- The iterator from its first entry to its end.
use aha_adaptive_hotspot_awa.Common.{
  ℕ, zero, suc, ◌+◌, ◌-◌, ◌≤◌, ◌<◌, ◌≡◌, refl, sym, ap, ◌∙◌, List, [], ◌∷◌, ◌++◌, length, drop,
  get_elem?-drop, drop_next, length-drop, has, true, false, Option, some, ◌>>=◌, arith,
  if◌then◌else◌, subst, length-append,
}
use aha_adaptive_hotspot_awa.Leveldb.{Leveldb}
use aha_adaptive_hotspot_awa.TreePage.Layout.{
  Page, page_read_pivot_at_offset, page_read_value_at_offset, decode_leaf_entry, decode_index_entry,
  entry_pos,
}
use aha_adaptive_hotspot_awa.TreeFile.{clean}
use aha_adaptive_hotspot_awa.BufferManager.{BufferManager}
use aha_adaptive_hotspot_awa.PageIterator.{
  PageIterator, pin_current, next_page, next, seek_to_first, let_go, key, value,
}

-- A state `I` of the manager in which each of these pages can be pinned, holds what the store says,
-- and the manager is in such a state again when it is released.
pub record Serves {M : Type 0} (B : BufferManager M) (I : M → Type 0) (store : ℕ → Page)
    (ids : List ℕ) : Type 0 where
  pub served :
      (m : M) (pg : ℕ)
      → I m
      → has pg ids ≡ true
      → (q : M) × (page : Page) × (B.pin_page pg m ≡ some (q, page))
        × (clean page ≡ store pg)
        × I (B.release_page pg q)

module _ ⦃L : Leveldb⦄ where
  -- `rounds` entries of a page from an offset on.
  unfoldable pub entries_from : Page → ℕ → ℕ → List (List ℕ × List ℕ)
  entries_from page o zero = []
  entries_from page o (suc rounds) =
      (page_read_pivot_at_offset page o, page_read_value_at_offset page o)
      ∷ entries_from page (o + 1) rounds

  unfoldable pub page_entries : Page → List (List ℕ × List ℕ)
  page_entries page = entries_from page 0 page.item_num

  -- All entries of the pages, one page after the other.
  unfoldable pub all_entries : (ℕ → Page) → List ℕ → List (List ℕ × List ℕ)
  all_entries store [] = []
  all_entries store (pg ∷ ids) = page_entries (store pg) ++ all_entries store ids

  entries-clean : (page : Page) (o k : ℕ) → entries_from (clean page) o k ≡ entries_from page o k
  unfolding entries_from page_read_pivot_at_offset page_read_value_at_offset decode_leaf_entry
      decode_index_entry entry_pos
  entries-clean page o zero = refl
  entries-clean page o (suc k) =
      ap (λ es. (page_read_pivot_at_offset page o, page_read_value_at_offset page o) ∷ es)
        (entries-clean page (o + 1) k)

  length-entries_from : (page : Page) (o k : ℕ) → length (entries_from page o k) ≡ k
  unfolding entries_from
  length-entries_from page o zero = refl
  length-entries_from page o (suc k) = omega (arith, length-entries_from page (o + 1) k)

  same_entries :
      (page page' : Page)
      → clean page ≡ page'
      → page_entries page' ≡ entries_from page 0 page.item_num
  unfolding page_entries
  same_entries page page' same = sym (ap page_entries same) ∙ entries-clean page 0 page.item_num

  -- The entries of a page that came in, its first one apart.
  came_in :
      (store : ℕ → Page) (pg : ℕ) (rest : List ℕ) (page : Page)
      → clean page ≡ store pg
      → 0 < page.item_num
      → all_entries store (pg ∷ rest)
        ≡ entries_from page 0 (suc (page.item_num - 1)) ++ all_entries store rest
  unfolding all_entries
  came_in store pg rest page same some_entry =
      let num : page.item_num ≡ suc (page.item_num - 1) = omega arith in
      ap (λ es. es ++ all_entries store rest)
        (same_entries page (store pg) same ∙ ap (entries_from page 0) num)

  length-came_in :
      (store : ℕ → Page) (pg n : ℕ) (rest : List ℕ) (page : Page)
      → clean page ≡ store pg
      → 0 < page.item_num
      → 1 + length (all_entries store (pg ∷ rest)) ≤ suc n
      → suc (page.item_num - 1) + length (all_entries store rest) ≤ n
  length-came_in store pg n rest page same some_entry fuel =
      let k = page.item_num - 1 in
      omega (
        arith,
        ap length (came_in store pg rest page same some_entry),
        length-append (entries_from page 0 (suc k)) (all_entries store rest),
        length-entries_from page 0 (suc k),
      )

  has_first : (pg : ℕ) (rest : List ℕ) → has pg (pg ∷ rest) ≡ true
  unfolding has
  has_first pg rest = ground arith

module _ ⦃L : Leveldb⦄ {M : Type 0} (B : BufferManager M) where
  -- What a client reads that calls `Next` while the iterator is valid, at most `n` times.
  unfoldable pub walk : ℕ → PageIterator M → Option (List (List ℕ × List ℕ))
  walk zero it = some []
  walk (suc n) it =
      let rest = next B it >>= walk n in
      if it.valid then (do k ← key it; v ← value it; es ← rest; some ((k, v) ∷ es)) else some []

  -- The iterator is at an entry of a page, with `k` entries behind it on the page and the pages `rest`
  -- behind the page.
  record At (I : M → Type 0) (store : ℕ → Page) (it : PageIterator M) (pg : ℕ) (rest : List ℕ)
      (page : Page) (k : ℕ) : Type 0 where
    pub live : it.valid ≡ true
    pub here : it.page ≡ some page
    pub place : drop it.vec_index it.page_ids ≡ pg ∷ rest
    pub left : it.off + suc k ≡ page.item_num
    pub same : clean page ≡ store pg
    pub free : I (B.release_page pg it.pages)

  walk_step :
      (it it' : PageIterator M) (page : Page) (n : ℕ) (es : List (List ℕ × List ℕ))
      → it.valid ≡ true
      → it.page ≡ some page
      → next B it ≡ some it'
      → walk n it' ≡ some es
      → walk (suc n) it
        ≡ some ((page_read_pivot_at_offset page it.off, page_read_value_at_offset page it.off) ∷ es)
  unfolding walk
  walk_step it it' page n es live here step rec = ground arith

  walk_ended : (n : ℕ) (it : PageIterator M) → it.valid ≡ false → walk n it ≡ some []
  unfolding walk
  walk_ended zero it done = refl
  walk_ended (suc n) it done = rw (walk, done) refl

  next_within :
      (it : PageIterator M) (page : Page)
      → it.page ≡ some page
      → it.off + 1 < page.item_num
      → next B it ≡ some (record it { off = it.off + 1; valid = true })
  unfolding next
  next_within it page here more = ground arith

  next_ends :
      (it : PageIterator M) (page : Page)
      → it.page ≡ some page
      → page.item_num ≤ it.off + 1
      → length it.page_ids ≤ it.vec_index + 1
      → next B it ≡ some (record it { off = it.off + 1; valid = false })
  unfolding next
  next_ends it page here last none_left = ground arith

  -- The page that follows comes in.
  abbrev over : PageIterator M → ℕ → ℕ → M → Page → PageIterator M
  over it i pg q page = record it {
    valid = true;
    off = 0;
    pages = q;
    page = some page;
    pinned_page = some pg;
    vec_index = i;
  }

  next-over :
      (it : PageIterator M) (pg pg' : ℕ) (rest : List ℕ) (page page' : Page) (q : M)
      → it.page ≡ some page
      → page.item_num ≤ it.off + 1
      → drop it.vec_index it.page_ids ≡ pg ∷ pg' ∷ rest
      → B.pin_page pg' (B.release_page pg it.pages) ≡ some (q, page')
      → next B it ≡ some (over it (it.vec_index + 1) pg' q page')
  unfolding next next_page pin_current
  next-over it pg pg' rest page page' q here last place pin =
      let this = get_elem?-drop it.vec_index it.page_ids (pg' ∷ rest) pg place in
      let that =
        get_elem?-drop (it.vec_index + 1) it.page_ids rest pg'
          (drop_next it.vec_index it.page_ids (pg' ∷ rest) pg place) in
      let more = length-drop it.vec_index it.page_ids (pg' ∷ rest) pg place in ground arith

  module _ (I : M → Type 0) (store : ℕ → Page) (ids : List ℕ) (serves : Serves B I store ids)
      (full : (pg : ℕ) → has pg ids ≡ true → 0 < (store pg).item_num) where
    entry_there :
        (pg : ℕ) (page : Page) → clean page ≡ store pg → has pg ids ≡ true → 0 < page.item_num
    entry_there pg page same on = subst (λ (t : Page). 0 < t.item_num) (sym same) (full pg on)

    -- The state of an iterator at the first entry of a page that came in.
    arrived :
        (it : PageIterator M) (pg : ℕ) (rest : List ℕ) (q : M) (page : Page)
        → drop it.vec_index it.page_ids ≡ pg ∷ rest
        → has pg ids ≡ true
        → clean page ≡ store pg
        → I (B.release_page pg it.pages)
        → it.valid ≡ true
        → it.off ≡ 0
        → it.page ≡ some page
        → At I store it pg rest page (page.item_num - 1)
    arrived it pg rest q page place on same free live start here =
        let some_entry = entry_there pg page same on in
        record {
          live = live;
          here = here;
          place = place;
          left = omega arith;
          same = same;
          free = free;
        }

    walk_from :
        (n k : ℕ) (rest : List ℕ) (it : PageIterator M) (pg : ℕ) (page : Page)
        → At I store it pg rest page k
        → ((a : ℕ) → has a rest ≡ true → has a ids ≡ true)
        → suc k + length (all_entries store rest) ≤ n
        → walk n it ≡ some (entries_from page it.off (suc k) ++ all_entries store rest)
    unfolding entries_from all_entries has
    walk_from zero k rest it pg page at within fuel = absurd (omega arith)
    walk_from (suc n) (suc k) rest it pg page at within fuel =
        walk_step it (record it { off = it.off + 1; valid = true }) page n _ at.live at.here
          (next_within it page at.here (omega (arith, at.left)))
          (walk_from n k rest (record it { off = it.off + 1; valid = true }) pg page
            (record {
              live = refl;
              here = at.here;
              place = at.place;
              left = omega (arith, at.left);
              same = at.same;
              free = at.free;
            })
            within (omega arith))
    walk_from (suc n) zero [] it pg page at within fuel =
        walk_step it (record it { off = it.off + 1; valid = false }) page n _ at.live at.here
          (next_ends it page at.here (omega (arith, at.left))
            (omega (arith, length-drop it.vec_index it.page_ids [] pg at.place)))
          (walk_ended n (record it { off = it.off + 1; valid = false }) refl)
    walk_from (suc n) zero (pg' ∷ rest) it pg page at within fuel =
        let on = within pg' (has_first pg' rest) in
        let (q, page', pin, same, free) =
          serves.served (B.release_page pg it.pages) pg' at.free on in
        let some_entry = entry_there pg' page' same on in
        let at' =
          arrived (over it (it.vec_index + 1) pg' q page') pg' rest q page'
            (drop_next it.vec_index it.page_ids (pg' ∷ rest) pg at.place) on same free refl refl
            refl in
        walk_step it (over it (it.vec_index + 1) pg' q page') page n _ at.live at.here
          (next-over it pg pg' rest page page' q at.here (omega (arith, at.left)) at.place pin)
          (walk_from n (page'.item_num - 1) rest (over it (it.vec_index + 1) pg' q page') pg' page'
              at' (λ a e. within a (ground arith))
              (length-came_in store pg' n rest page' same some_entry fuel)
            ∙ ap some (sym (came_in store pg' rest page' same some_entry)))

module _ ⦃L : Leveldb⦄ {M : Type 0} (B : BufferManager M) where
  let_go-page_ids : (it : PageIterator M) → (let_go B it).page_ids ≡ it.page_ids
  unfolding let_go
  let_go-page_ids it = ground arith

  seek_first :
      (it : PageIterator M) (pg : ℕ) (rest : List ℕ) (q : M) (page : Page)
      → it.page_ids ≡ pg ∷ rest
      → B.pin_page pg (let_go B it).pages ≡ some (q, page)
      → 0 < page.item_num
      → seek_to_first B it ≡ some (over B (let_go B it) 0 pg q page)
  unfolding seek_to_first pin_current
  seek_first it pg rest q page listed pin some_entry =
      let listed' = let_go-page_ids it ∙ listed in ground arith

  -- Over pages that have entries each and that the manager serves, a client that goes to the first
  -- entry and calls `Next` while the iterator is valid, with a bound of at least the number of entries
  -- on its calls, reads the entries of all pages in order, each once.
  pub walk_all :
      (I : M → Type 0) (store : ℕ → Page) (it : PageIterator M) (pg : ℕ) (rest : List ℕ) (n : ℕ)
      → it.page_ids ≡ pg ∷ rest
      → Serves B I store (pg ∷ rest)
      → ((a : ℕ) → has a (pg ∷ rest) ≡ true → 0 < (store a).item_num)
      → I (let_go B it).pages
      → length (all_entries store (pg ∷ rest)) ≤ n
      → (seek_to_first B it >>= walk B n) ≡ some (all_entries store (pg ∷ rest))
  unfolding has
  walk_all I store it pg rest n listed serves full start fuel =
      let on = has_first pg rest in
      let (q, page, pin, same, free) = serves.served (let_go B it).pages pg start on in
      let some_entry = subst (λ (t : Page). 0 < t.item_num) (sym same) (full pg on) in
      let it1 = over B (let_go B it) 0 pg q page in
      ap (λ o. o >>= walk B n) (seek_first it pg rest q page listed pin some_entry)
      ∙ walk_from B I store (pg ∷ rest) serves full n (page.item_num - 1) rest it1 pg page
          (arrived B I store (pg ∷ rest) serves full it1 pg rest q page
            (let_go-page_ids it ∙ listed) on same free refl refl refl)
          (λ a e. ground arith) (length-came_in store pg n rest page same some_entry (omega arith))
      ∙ ap some (sym (came_in store pg rest page same some_entry))
