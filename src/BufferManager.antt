-- ===== src/BufferManager.antt =====
-- src/wot_buf_mgr/buffer_manager.h, `BufferManager`: the calls that the trees and iterators make of a
-- buffer pool, and the pool of BufferPool/Sharded behind them. `none` is an abort.
use aha_adaptive_hotspot_awa.Common.{ℕ, Option}
use aha_adaptive_hotspot_awa.TreePage.Layout.{Page}
use aha_adaptive_hotspot_awa.BufferPool.Sharded.{
  ShardedPool, pool_lookup, pool_pin, pool_unpin, pool_unpin_and_release, pool_delete,
  pool_allocate, pool_allocate_root,
}

pub record BufferManager (M : Type 0) : Type 0 where
  pub lookup_page : ℕ → M → Option Page
  pub pin_page : ℕ → M → Option (M × Page)
  pub unpin_page : ℕ → M → Option M
  pub release_page : ℕ → M → M
  pub remove_page : ℕ → M → Option M
  pub new_page : M → Option (M × ℕ)
  pub new_root : ℕ → M → Option (M × ℕ)

-- `NewBufferManager`
abbrev pub sharded_manager : BufferManager ShardedPool
sharded_manager = record {
  lookup_page = pool_lookup;
  pin_page = pool_pin;
  unpin_page = pool_unpin;
  release_page = pool_unpin_and_release;
  remove_page = pool_delete;
  new_page = pool_allocate;
  new_root = pool_allocate_root;
}
