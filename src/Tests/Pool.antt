-- ===== src/Tests/Pool.antt =====
-- A shard of one page: its first page is written, leaves the pool for the second, and comes back.
use aha_adaptive_hotspot_awa.Common.{
  ℕ, ◌+◌, ◌≤◌, ◌<◌, ◌≡◌, ◌≢◌, refl, sym, ap, ◌∙◌, ◌⊎◌, List, [], ◌∷◌, length, Bool, true, false,
  Option, none, some, arith, inl, inr, word_mod, add32, sub32, without,
}
use aha_adaptive_hotspot_awa.Dict.{find, put, erase}
use aha_adaptive_hotspot_awa.TreePage.Layout.{Page, page_init}
use aha_adaptive_hotspot_awa.TreeFile.{
  TreeFile, new_tree_file, get_page, write_page, write_at, clean, set_at, zero_page,
}
use aha_adaptive_hotspot_awa.BufferPool.{
  Pool, PageHandle, new_pool, file_offset, evict, evict_oldest, evict_loop, may_overflow,
  take_buffer, get_buffer, insert_table, retrieve_handle, add_ref, pin, drop_ref, unpin,
  unpin_and_release,
}
use aha_adaptive_hotspot_awa.BufferPool.Allocated.{grow_file, new_buffer, allocate}
use aha_adaptive_hotspot_awa.BufferPool.Valid.{IsPool, InShard, content, Keeps}
use aha_adaptive_hotspot_awa.TreeFile.Laws.{get-write_page}
use mathlib.Core.Option.{some-injective}
use aha_adaptive_hotspot_awa.BufferPool.Overflow.{Evicts, may_overflow-Evicts}
use aha_adaptive_hotspot_awa.BufferPool.Pins.{Pinned, pin-Pinned}
use aha_adaptive_hotspot_awa.BufferPool.Released.{unpin_and_release-Keeps}
use aha_adaptive_hotspot_awa.BufferPool.Sharded.{ShardedPool, new_sharded_pool, pool_allocate}
use aha_adaptive_hotspot_awa.BufferPool.Sharded.Numbers.{IsSharded, pool_content, pool_allocate_lem}
use aha_adaptive_hotspot_awa.BufferPool.Refined.{
  pinned, unpinned, allocated, written, run, replay, Store, IsAllowed, Refines, run-Refines,
}
use aha_adaptive_hotspot_awa.BufferPool.Refined.Runs.{
  Runs, begin, then_call, Runs-refine, new_pool-Refines, pin_reads_store,
}

abbrev after : Option Pool → Pool
after o = elim o [ none ↦ new_pool 0 16 new_tree_file | some p ↦ p ]

abbrev empty : Pool
empty = new_pool 1 16 new_tree_file

abbrev with_first : Pool
with_first = after (run (allocated 1) empty)

abbrev with_pin : Pool
with_pin = after (run (pinned 1) with_first)

abbrev filled : Page
filled = record zero_page { page_id = 1; item_num = 5 }

abbrev with_write : Pool
with_write = after (run (written 1 filled) with_pin)

abbrev without_pin : Pool
without_pin = after (run (unpinned 1) with_write)

-- The second page takes the only buffer.
abbrev with_second : Pool
with_second = after (run (allocated 17) without_pin)

abbrev first_store : Store
first_store = replay (allocated 1) (λ pg. none)

abbrev filled_store : Store
filled_store = replay (unpinned 1) (replay (written 1 filled) (replay (pinned 1) first_store))

abbrev second_store : Store
second_store = replay (allocated 17) filled_store

abbrev first_handle : PageHandle
first_handle = record { page_array_id = 0; refs = 0 }

abbrev first_pinned : PageHandle
first_pinned = record { page_array_id = 0; refs = 1 }

few_refs :
    (p : Pool) (pg : ℕ) (h : PageHandle)
    → find pg p.table ≡ some h
    → h.refs ≡ 0
    → (k : PageHandle) → find pg p.table ≡ some k
    → k.refs + 1 < word_mod
few_refs p pg h found none_yet k e =
    let same : h ≡ k = some-injective _ _ (sym found ∙ e) in
    omega (arith, ap (λ (t : PageHandle). t.refs) same)

absent_refs :
    (p : Pool) (pg : ℕ)
    → find pg p.table ≡ none
    → (k : PageHandle) → find pg p.table ≡ some k
    → k.refs + 1 < word_mod
absent_refs p pg absent k e = absurd (cc)

cons_ne : (pg : ℕ) (rest : List ℕ) → pg ∷ rest ≢ []
cons_ne pg rest e = absurd (cc)

first_InShard : InShard 1 1
first_InShard = (omega arith, omega arith, refl)

second_InShard : InShard 1 17
second_InShard = (omega arith, omega arith, refl)

run_first : Runs 1 empty (λ pg. none) with_first first_store
unfolding run replay IsAllowed allocate new_buffer may_overflow evict_loop evict_oldest evict
    grow_file get_buffer take_buffer insert_table find put erase file_offset set_at page_init pin
    retrieve_handle add_ref unpin drop_ref get_page write_page write_at add32 sub32 without
run_first = then_call (allocated 1) begin (first_InShard, refl, inl (omega arith)) refl

run_pin : Runs 1 empty (λ pg. none) with_pin (replay (pinned 1) first_store)
unfolding run replay IsAllowed allocate new_buffer may_overflow evict_loop evict_oldest evict
    grow_file get_buffer take_buffer insert_table find put erase file_offset set_at page_init pin
    retrieve_handle add_ref unpin drop_ref get_page write_page write_at add32 sub32 without
run_pin =
    then_call (pinned 1) run_first
      (
        clean (page_init zero_page 1),
        refl,
        first_InShard,
        inr (cons_ne 1 []),
        few_refs with_first 1 first_handle refl refl,
      )
      refl

run_write :
    Runs 1 empty (λ pg. none) with_write (replay (written 1 filled) (replay (pinned 1) first_store))
unfolding run replay IsAllowed allocate new_buffer may_overflow evict_loop evict_oldest evict
    grow_file get_buffer take_buffer insert_table find put erase file_offset set_at page_init pin
    retrieve_handle add_ref unpin drop_ref get_page write_page write_at add32 sub32 without
run_write = then_call (written 1 filled) run_pin (first_pinned, refl, omega arith, omega arith) refl

run_unpin : Runs 1 empty (λ pg. none) without_pin filled_store
unfolding run replay IsAllowed allocate new_buffer may_overflow evict_loop evict_oldest evict
    grow_file get_buffer take_buffer insert_table find put erase file_offset set_at page_init pin
    retrieve_handle add_ref unpin drop_ref get_page write_page write_at add32 sub32 without
run_unpin = then_call (unpinned 1) run_write (first_pinned, refl, omega arith, omega arith) refl

run_second : Runs 1 empty (λ pg. none) with_second second_store
unfolding run replay IsAllowed allocate new_buffer may_overflow evict_loop evict_oldest evict
    grow_file get_buffer take_buffer insert_table find put erase file_offset set_at page_init pin
    retrieve_handle add_ref unpin drop_ref get_page write_page write_at add32 sub32 without
run_second = then_call (allocated 17) run_unpin (second_InShard, refl, inr (cons_ne 1 [])) refl

empty-Refines : Refines 1 empty (λ pg. none)
empty-Refines = new_pool-Refines 1 1 new_tree_file (omega arith)

first-Refines : Refines 1 with_first first_store
first-Refines = Runs-refine 1 empty-Refines run_first

pin-Refines : Refines 1 with_pin (replay (pinned 1) first_store)
pin-Refines = Runs-refine 1 empty-Refines run_pin

write-Refines : Refines 1 with_write (replay (written 1 filled) (replay (pinned 1) first_store))
write-Refines = Runs-refine 1 empty-Refines run_write

unpin-Refines : Refines 1 without_pin filled_store
unpin-Refines = Runs-refine 1 empty-Refines run_unpin

-- The first page comes back as it was written.
pin_reads_store_example :
    (with_second.pages_num ≤ with_second.max_num)
    × ((r : Pool) × (page : Page) × (pin 1 with_second ≡ some (r, page)) × (clean page ≡ filled))
unfolding run replay IsAllowed allocate new_buffer may_overflow evict_loop evict_oldest evict
    grow_file get_buffer take_buffer insert_table find put erase file_offset set_at page_init pin
    retrieve_handle add_ref unpin drop_ref get_page write_page write_at add32 sub32 without
pin_reads_store_example =
    pin_reads_store 1 1 new_tree_file with_second second_store 1 filled (omega arith) run_second
      (filled, refl, first_InShard, inr (cons_ne 17 []), absent_refs with_second 1 refl) refl

run-Refines_example :
    (q : Pool) × (run (allocated 17) without_pin ≡ some q)
    × Refines 1 q (replay (allocated 17) filled_store)
unfolding run replay IsAllowed allocate new_buffer may_overflow evict_loop evict_oldest evict
    grow_file get_buffer take_buffer insert_table find put erase file_offset set_at page_init pin
    retrieve_handle add_ref unpin drop_ref get_page write_page write_at add32 sub32 without
run-Refines_example =
    run-Refines 1 without_pin filled_store (allocated 17) unpin-Refines
      (second_InShard, refl, inr (cons_ne 1 []))

pin-Pinned_example :
    (q : Pool) × (page : Page) × (pin 1 with_first ≡ some (q, page))
    × Pinned 1 1 (clean (page_init zero_page 1)) with_first q page
unfolding run replay IsAllowed allocate new_buffer may_overflow evict_loop evict_oldest evict
    grow_file get_buffer take_buffer insert_table find put erase file_offset set_at page_init pin
    retrieve_handle add_ref unpin drop_ref get_page write_page write_at content add32 sub32 without
pin-Pinned_example =
    pin-Pinned 1 1 (clean (page_init zero_page 1)) with_first first-Refines.pool first_InShard refl
      (inr (cons_ne 1 [])) (few_refs with_first 1 first_handle refl refl)

unpin_and_release-Keeps_example :
    IsPool 1 (unpin_and_release 1 with_write)
    × Keeps 1 with_write (unpin_and_release 1 with_write)
    × (find 1 (unpin_and_release 1 with_write).table ≡ none)
unfolding run replay IsAllowed allocate new_buffer may_overflow evict_loop evict_oldest evict
    grow_file get_buffer take_buffer insert_table find put erase file_offset set_at page_init pin
    retrieve_handle add_ref unpin drop_ref get_page write_page write_at add32 sub32 without
unpin_and_release-Keeps_example =
    unpin_and_release-Keeps 1 1 with_write first_pinned write-Refines.pool refl (omega arith)
      (omega arith)

may_overflow-Evicts_example :
    (q : Pool) × (full : Bool) × (may_overflow without_pin ≡ some (q, full))
    × Evicts 1 without_pin q
    × (((full ≡ false) × (length q.table < q.max_num))
        ⊎ ((full ≡ true)
            × (without_pin.lru ≡ [])
            × (without_pin.max_num ≤ length without_pin.table)))
may_overflow-Evicts_example = may_overflow-Evicts 1 without_pin unpin-Refines.pool

abbrev two_pages : TreeFile
two_pages = write_at 1 filled (record new_tree_file { page_num = 2 })

get-write_page_example :
    (get_page 0 (write_page 0 (record filled { is_dirty = true }) two_pages).0 ≡ some filled)
    × ((j : ℕ) (page' : Page)
        → j ≢ 0
        → get_page j two_pages ≡ some page'
        → get_page j (write_page 0 (record filled { is_dirty = true }) two_pages).0 ≡ some page')
unfolding run replay IsAllowed allocate new_buffer may_overflow evict_loop evict_oldest evict
    grow_file get_buffer take_buffer insert_table find put erase file_offset set_at page_init pin
    retrieve_handle add_ref unpin drop_ref get_page write_page write_at add32 sub32 without
get-write_page_example =
    get-write_page 0 (record filled { is_dirty = true }) two_pages (omega arith)

-- A new buffer pool of 16 pages.
abbrev new_pools : ShardedPool
new_pools = new_sharded_pool 16 zero_page

new_pools-IsSharded : IsSharded new_pools
unfolding new_sharded_pool find
new_pools-IsSharded = record {
  each = λ s small. (new_pool-Refines s 1 new_tree_file (omega arith)).pool;
  given = λ s a h small e. absurd (cc);
  started = omega arith;
}

pool_allocate_lem_example :
    (m' : ShardedPool) × (pool_allocate new_pools ≡ some (m', 1))
    × IsSharded m'
    × (find 1 (new_pools.shards 1).table ≡ none)
    × (pool_content m' 1 ≡ some (clean (page_init zero_page 1)))
    × ((a : ℕ) (c : Page)
        → 0 < a
        → a < 1
        → pool_content new_pools a ≡ some c
        → pool_content m' a ≡ some c)
unfolding new_sharded_pool
pool_allocate_lem_example =
    pool_allocate_lem new_pools new_pools-IsSharded (omega arith) (inl (omega arith))
