-- ===== src/TreePage/Lookup.antt =====
-- src/wot_buf_mgr/buffer_pool_helper.h, `GetValueWithKey`: the value of a key on a pinned leaf
-- page. The pins and the copy into the arena are left out.
pub mod Reads
pub mod AfterInsert
pub mod AfterRemove
pub mod Pivots
use aha_adaptive_hotspot_awa.Common.{
  ℕ, List, [], true, false, Option, none, some, ◌>>=◌, if◌then◌else◌,
}
use aha_adaptive_hotspot_awa.Leveldb.{Leveldb}
use aha_adaptive_hotspot_awa.TreePage.Layout.{Page, page_read_value_at_offset}
use aha_adaptive_hotspot_awa.TreePage.Update.{page_find_offset}

module _ ⦃L : Leveldb⦄ where
  unfoldable pub get_value_with_key : Page → List ℕ → Option (List ℕ)
  get_value_with_key p key =
      if p.is_leaf
      then (do
        found ← page_find_offset p key
        some (elim found [ none ↦ [] | some off ↦ page_read_value_at_offset p off ]))
      else none
