-- ===== src/PageIterator.antt =====
-- src/wot_buf_mgr/wot_page_iter.{h,cc}, `PageIterator`: the entries of several leaf pages, one page
-- pinned at a time. The pinned page stands as it is when it is pinned: the locks of the nodes keep
-- writers off it. `none` is an abort, a failed assertion or an index past the pages.
pub mod Walk
use aha_adaptive_hotspot_awa.Common.{
  ℕ, zero, suc, ◌+◌, ◌-◌, List, [], ◌∷◌, ◌++◌, length, get_elem?, Bool, true, false, ◌&&◌, not,
  Option, none, some, ◌>>=◌, ltb, leb, ◌==◌, if◌then◌else◌,
}
use aha_adaptive_hotspot_awa.Leveldb.{Leveldb}
use aha_adaptive_hotspot_awa.TreePage.Layout.{
  Page, page_read_pivot_at_offset, page_read_value_at_offset,
}
use aha_adaptive_hotspot_awa.TreePage.Update.{page_find_offset_bol}
use aha_adaptive_hotspot_awa.BufferManager.{BufferManager}

-- `pages` is the buffer manager of the tree. A new iterator has no page, and -1 for `pinned_page_` is
-- `none`.
pub record PageIterator (M : Type 0) : Type 0 where
  pub valid : Bool
  pub off : ℕ
  pub pages : M
  pub page : Option Page
  pub page_ids : List ℕ
  pub pinned_page : Option ℕ
  pub vec_index : ℕ

abbrev pub new_page_iterator : {M : Type 0} → M → PageIterator M
new_page_iterator m = record {
  valid = false;
  off = 0;
  pages = m;
  page = none;
  page_ids = [];
  pinned_page = none;
  vec_index = 0;
}

abbrev pub add_page : {M : Type 0} → ℕ → PageIterator M → PageIterator M
add_page pid it = record it { page_ids = it.page_ids ++ pid ∷ [] }

module _ {M : Type 0} (B : BufferManager M) where
  -- The destructor.
  unfoldable pub close_iterator : PageIterator M → Option M
  close_iterator it = elim it.page [
    | none ↦ none
    | some page ↦ some (B.release_page page.page_id it.pages)
  ]

  -- If the iterator is reused, the page before is let go.
  unfoldable pub let_go : PageIterator M → PageIterator M
  let_go it = elim it.pinned_page [
    | none ↦ it
    | some pid ↦ record it { pages = B.release_page pid it.pages }
  ]

  -- The page at `vec_index` comes in.
  unfoldable pub pin_current : PageIterator M → Option (PageIterator M × Page)
  pin_current it = do
    pid ← get_elem? it.page_ids it.vec_index
    (m, page) ← B.pin_page pid it.pages
    some (record it { pages = m; page = some page; pinned_page = some pid }, page)

  unfoldable pub next_page : PageIterator M → Option (PageIterator M)
  unfolding pin_current
  next_page it = do
    pid ← get_elem? it.page_ids it.vec_index
    (at, page) ←
        pin_current
          (record it { pages = B.release_page pid it.pages; vec_index = it.vec_index + 1 })
    some (record at { off = 0; valid = true })

  unfoldable pub next : PageIterator M → Option (PageIterator M)
  unfolding next_page
  next it = elim it.page [
    | none ↦ none
    | some page ↦
        if leb page.item_num (it.off + 1) && ltb (it.vec_index + 1) (length it.page_ids)
        then next_page it
        else some (record it { off = it.off + 1; valid = not (leb page.item_num (it.off + 1)) })
  ]

  unfoldable pub prev : PageIterator M → PageIterator M
  prev it =
      if it.off == 0
      then record it { valid = false }
      else record it { off = it.off - 1; valid = true }

  unfoldable pub seek_to_first : PageIterator M → Option (PageIterator M)
  unfolding let_go pin_current next
  seek_to_first it = do
    (at, page) ← pin_current (record (let_go it) { vec_index = 0 })
    if page.item_num == 0
        then next (record at { valid = false })
        else some (record at { off = 0; valid = true })

  unfoldable pub seek_to_last : PageIterator M → Option (PageIterator M)
  unfolding let_go pin_current
  seek_to_last it = do
    (at, page) ← pin_current (let_go it)
    some (
        if page.item_num == 0
        then record at { valid = false }
        else record at { off = page.item_num - 1; valid = true })

module _ ⦃L : Leveldb⦄ {M : Type 0} (B : BufferManager M) where
  unfoldable pub seek : List ℕ → PageIterator M → Option (PageIterator M)
  seek k it = do
    (at, page) ← pin_current B (record (let_go B it) { vec_index = 0 })
    if page.item_num == 0 then some (record at { valid = false }) else (do
      off ← page_find_offset_bol page k
      some (record at { off = off; valid = not (off == page.item_num) }))

module _ ⦃L : Leveldb⦄ {M : Type 0} where
  abbrev pub key : PageIterator M → Option (List ℕ)
  key it = elim it.page [ none ↦ none | some page ↦ some (page_read_pivot_at_offset page it.off) ]

  abbrev pub value : PageIterator M → Option (List ℕ)
  value it = elim it.page [ none ↦ none | some page ↦ some (page_read_value_at_offset page it.off) ]
