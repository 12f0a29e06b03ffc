-- ===== src/BufferPool/Sharded.antt =====
-- src/wot_buf_mgr/tree_buffer.cc, `ShardedBufferManager`: sixteen shards by page number, and the root
-- page, which stays in memory.
pub mod Numbers
use aha_adaptive_hotspot_awa.Common.{
  ℕ, ◌+◌, ◌/◌, ◌%◌, Bool, true, false, Option, none, some, ◌>>=◌, ◌==◌, if◌then◌else◌, word_mod,
}
use aha_adaptive_hotspot_awa.TreePage.Layout.{Page, page_init}
use aha_adaptive_hotspot_awa.TreeFile.{set_at, zero_page, new_tree_file}
use aha_adaptive_hotspot_awa.BufferPool.{
  Pool, new_pool, pin, unpin, unpin_and_release, lookup, delete_page,
}
use aha_adaptive_hotspot_awa.BufferPool.Allocated.{allocate, allocate_root}

-- `kNumShards`
abbrev pub num_shards : ℕ
num_shards = 16

pub record ShardedPool : Type 0 where
  pub shards : ℕ → Pool
  pub new_id : ℕ
  pub root_id : ℕ
  pub root : Page

-- A pool of `capacity` pages. `frame` is the memory that the root gets.
unfoldable pub new_sharded_pool : ℕ → Page → ShardedPool
new_sharded_pool capacity frame = record {
  shards = λ s. new_pool ((capacity + 15) / num_shards % word_mod) num_shards new_tree_file;
  new_id = 1;
  root_id = 0;
  root = page_init frame 0;
}

-- `Shard(HashPageId(page_id))`
abbrev pub shard_of : ℕ → ℕ
shard_of page_id = page_id % num_shards

abbrev pub with_shard : ShardedPool → ℕ → Pool → ShardedPool
with_shard m page_id p = record m { shards = set_at m.shards (shard_of page_id) p }

unfoldable pub pool_lookup : ℕ → ShardedPool → Option Page
pool_lookup page_id m =
    if page_id == m.root_id then some m.root else lookup page_id (m.shards (shard_of page_id))

unfoldable pub pool_pin : ℕ → ShardedPool → Option (ShardedPool × Page)
pool_pin page_id m = if page_id == m.root_id then some (m, m.root) else (do
  (p, page) ← pin page_id (m.shards (shard_of page_id))
  some (with_shard m page_id p, page))

unfoldable pub pool_delete : ℕ → ShardedPool → Option ShardedPool
pool_delete page_id m =
    if page_id == m.root_id
    then none
    else some (with_shard m page_id (delete_page page_id (m.shards (shard_of page_id))))

unfoldable pub pool_unpin : ℕ → ShardedPool → Option ShardedPool
pool_unpin page_id m =
    if page_id == m.root_id
    then some m
    else (do p ← unpin page_id (m.shards (shard_of page_id)); some (with_shard m page_id p))

unfoldable pub pool_unpin_and_release : ℕ → ShardedPool → ShardedPool
pool_unpin_and_release page_id m =
    if page_id == m.root_id
    then m
    else with_shard m page_id (unpin_and_release page_id (m.shards (shard_of page_id)))

-- `new_id_` has 64 bits, and the number that is returned 32.
unfoldable pub pool_allocate : ShardedPool → Option (ShardedPool × ℕ)
pool_allocate m = do
  p ← allocate (m.new_id % word_mod) (m.shards (shard_of (m.new_id % word_mod)))
  some
      (with_shard (record m { new_id = m.new_id + 1 }) (m.new_id % word_mod) p, m.new_id % word_mod)

-- The root's content moves to a new page, and the root is empty.
unfoldable pub pool_allocate_root : ℕ → ShardedPool → Option (ShardedPool × ℕ)
pool_allocate_root root_id m =
    if root_id == m.root_id
    then (do
      p ← allocate_root (m.new_id % word_mod) m.root (m.shards (shard_of (m.new_id % word_mod)))
      some (
        with_shard (record m { new_id = m.new_id + 1; root = page_init m.root m.root_id })
            (m.new_id % word_mod) p,
        m.new_id % word_mod,
      ))
    else none
