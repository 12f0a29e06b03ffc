-- ===== src/Tests/Iterator.antt =====
-- An iterator over the root page of a pool, which is always in memory.
use aha_adaptive_hotspot_awa.Common.{
  ℕ, ◌≡◌, refl, ap, ◌∙◌, [], ◌∷◌, true, some, has, ◌>>=◌, arith, ◌==◌,
}
use aha_adaptive_hotspot_awa.TreeFile.{zero_page}
use aha_adaptive_hotspot_awa.BufferPool.Sharded.{
  ShardedPool, new_sharded_pool, pool_pin, pool_unpin_and_release,
}
use aha_adaptive_hotspot_awa.BufferManager.{sharded_manager}
use aha_adaptive_hotspot_awa.PageIterator.{
  PageIterator, new_page_iterator, add_page, seek_to_first, let_go,
}
use aha_adaptive_hotspot_awa.PageIterator.Walk.{
  Serves, all_entries, walk, walk_all, page_entries, entries_from,
}
use aha_adaptive_hotspot_awa.Tests.Bytewise.{bytewise}
use aha_adaptive_hotspot_awa.Tests.Pages.{pair}

-- A pool whose root page is a leaf with two entries.
abbrev rooted : ShardedPool
rooted = record {
  shards = (new_sharded_pool 16 zero_page).shards;
  new_id = 1;
  root_id = 0;
  root = pair;
}

abbrev over_root : PageIterator ShardedPool
over_root = add_page 0 (new_page_iterator rooted)

only_root : (pg : ℕ) → has pg (0 ∷ []) ≡ true → pg ≡ 0
unfolding has
only_root pg on = ground arith

root-Serves : Serves sharded_manager (λ m. m ≡ rooted) (λ pg. pair) (0 ∷ [])
unfolding pool_pin pool_unpin_and_release
root-Serves = record {
  served = λ m pg same on.
      let at_root : (pg == 0) ≡ true = ground (arith, only_root pg on) in
      let pin : pool_pin pg rooted ≡ some (rooted, pair) = rw (pool_pin, at_root) refl in
      let stays : pool_unpin_and_release pg rooted ≡ rooted =
        rw (pool_unpin_and_release, at_root) refl in
      (rooted, pair, ap (pool_pin pg) same ∙ pin, refl, stays);
}

walk_all_example :
    (seek_to_first sharded_manager over_root >>= walk sharded_manager 2)
    ≡ some (all_entries (λ pg. pair) (0 ∷ []))
unfolding let_go all_entries page_entries entries_from
walk_all_example =
    walk_all sharded_manager (λ m. m ≡ rooted) (λ pg. pair) over_root 0 [] 2 refl root-Serves
      (λ a on. omega arith) refl (omega arith)
