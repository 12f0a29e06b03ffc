-- ===== src/BufferPool.antt =====
-- src/wot_buf_mgr/tree_buffer.cc, `TreeBufferManager`: one shard of the buffer pool. A call holds the
-- shard's mutex, so it is one step. A handle is known by the number of its page: the two lists hold
-- these numbers, the oldest first. `none` is an abort, a failed assertion or the use of a null or freed
-- pointer.
pub mod Allocated
pub mod Valid
pub mod Dropped
pub mod Overflow
pub mod Buffers
pub mod Counted
pub mod Pins
pub mod Released
pub mod Created
pub mod Refined
pub mod Sharded
use aha_adaptive_hotspot_awa.Common.{
  ℕ, zero, suc, ◌+◌, ◌/◌, List, [], ◌∷◌, ◌++◌, length, Bool, true, false, Option, none, some, ◌>>=◌,
  ltb, leb, ◌==◌, if◌then◌else◌, add32, sub32, without,
}
use aha_adaptive_hotspot_awa.Dict.{find, put, erase}
use aha_adaptive_hotspot_awa.TreePage.Layout.{Page, page_init}
use aha_adaptive_hotspot_awa.TreeFile.{
  TreeFile, zero_page, set_at, write_page, get_page, get_new_pageid,
}

pub record PageHandle : Type 0 where
  pub page_array_id : ℕ
  pub refs : ℕ

-- `pages_` is an array of `pages_num` buffers.
pub record Pool : Type 0 where
  pub max_num : ℕ
  pub shard_num : ℕ
  pub table : List (ℕ × PageHandle)
  pub lru : List ℕ
  pub in_use : List ℕ
  pub pages : ℕ → Page
  pub pages_num : ℕ
  pub recent_evicted : List ℕ
  pub file : TreeFile

abbrev pub new_pool : ℕ → ℕ → TreeFile → Pool
new_pool max_num shard_num file = record {
  max_num = max_num;
  shard_num = shard_num;
  table = [];
  lru = [];
  in_use = [];
  pages = λ i. zero_page;
  pages_num = 0;
  recent_evicted = [];
  file = file;
}

-- `(pg_id - 1) / shard_num_`
unfoldable pub file_offset : ℕ → ℕ → ℕ
file_offset shard_num pg = sub32 pg 1 / shard_num

-- `LRU_Remove` takes a handle off the list that it is on.
abbrev pub lru_remove : ℕ → Pool → Pool
lru_remove pg p = record p { lru = without pg p.lru; in_use = without pg p.in_use }

-- `Erase` of a page with this handle.
unfoldable pub evict : ℕ → PageHandle → Pool → Pool
evict pg h p =
    let (file, page) = write_page (file_offset p.shard_num pg) (p.pages h.page_array_id) p.file in
    record (lru_remove pg p) {
      table = erase pg p.table;
      pages = set_at p.pages h.page_array_id page;
      recent_evicted = p.recent_evicted ++ h.page_array_id ∷ [];
      file = file;
    }

-- A round of the loop of `MayOverflow` at the oldest page, with `usage_`.
unfoldable pub evict_oldest : ℕ → ℕ → Pool → Option (Pool × ℕ)
unfolding evict
evict_oldest old usage p = elim (find old p.table) [
  | none ↦ some (lru_remove old p, usage)
  | some h ↦ if h.refs == 0 then some (evict old h p, sub32 usage 1) else none
]

-- The loop, on fuel. Each round takes a page off `lru`.
unfoldable pub evict_loop : ℕ → ℕ → Pool → Option (Pool × ℕ)
unfolding evict_oldest
evict_loop zero usage p = some (p, usage)
evict_loop (suc n) usage p = if ltb usage p.max_num then some (p, usage) else elim p.lru [
  | [] ↦ some (p, usage)
  | old ∷ rest ↦ evict_oldest old usage p >>= λ next. evict_loop n next.1 next.0
]

-- The pool, and whether it is full of pinned pages.
unfoldable pub may_overflow : Pool → Option (Pool × Bool)
unfolding evict_loop
may_overflow p = do
  (q, usage) ← evict_loop (length p.lru) (length p.table) p
  some (q, leb q.max_num usage)

-- The buffer at the head of the queue, filled with zeros, and its index.
unfoldable pub take_buffer : Pool → Option (Pool × ℕ)
take_buffer p = elim p.recent_evicted [
  | [] ↦ none
  | i ∷ rest ↦ some (record p { recent_evicted = rest; pages = set_at p.pages i zero_page }, i)
]

unfoldable pub get_buffer : Pool → Option (Pool × ℕ)
unfolding take_buffer
get_buffer p = elim p.recent_evicted [
  | i ∷ rest ↦ take_buffer p
  | [] ↦
      if leb (p.pages_num + 1) p.max_num
      then take_buffer (record p { pages_num = p.pages_num + 1; recent_evicted = p.pages_num ∷ [] })
      else none
]

-- A page that is there already would have its buffer freed and its handle left on a list: `none`.
unfoldable pub insert_table : ℕ → ℕ → Pool → Option Pool
insert_table i pg p = elim (find pg p.table) [
  | some _ ↦ none
  | none ↦ some (record p {
    table = put pg (record { page_array_id = i; refs = 0 }) p.table;
    lru = p.lru ++ pg ∷ [];
  })
]

-- A null pointer, where all pages are pinned, is `none`: the caller uses it.
unfoldable pub retrieve_handle : ℕ → Pool → Option (Pool × PageHandle)
unfolding may_overflow get_buffer insert_table
retrieve_handle pg p = elim (find pg p.table) [
  | some h ↦ some (p, h)
  | none ↦ (do
    (q, full) ← may_overflow p
    if full then none else (do
      (r, i) ← get_buffer q
      page ← get_page (file_offset r.shard_num pg) r.file
      s ← insert_table i pg (record r { pages = set_at r.pages i page })
      some (s, record { page_array_id = i; refs = 0 })))
]

-- `Ref`
unfoldable pub add_ref : ℕ → PageHandle → Pool → Pool
add_ref pg h p =
    let moved =
      if h.refs == 0
      then record (lru_remove pg p) { in_use = without pg p.in_use ++ pg ∷ [] }
      else p in
    record moved { table = put pg (record h { refs = add32 h.refs 1 }) moved.table }

unfoldable pub pin : ℕ → Pool → Option (Pool × Page)
unfolding retrieve_handle add_ref
pin pg p = do (q, h) ← retrieve_handle pg p; some (add_ref pg h q, q.pages h.page_array_id)

-- `Unref`
unfoldable pub drop_ref : ℕ → PageHandle → Pool → Option Pool
drop_ref pg h p =
    if h.refs == 0
    then none
    else (let less = record p { table = put pg (record h { refs = sub32 h.refs 1 }) p.table } in
        if sub32 h.refs 1 == 0
        then some (record (lru_remove pg less) { lru = without pg less.lru ++ pg ∷ [] })
        else some less)

unfoldable pub unpin : ℕ → Pool → Option Pool
unfolding drop_ref
unpin pg p = elim (find pg p.table) [ none ↦ some p | some h ↦ drop_ref pg h p ]

unfoldable pub unpin_and_release : ℕ → Pool → Pool
unfolding evict
unpin_and_release pg p = elim (find pg p.table) [
  | none ↦ p
  | some h ↦
      let less = record p { table = put pg (record h { refs = sub32 h.refs 1 }) p.table } in
      if sub32 h.refs 1 == 0 then evict pg h less else less
]

unfoldable pub lookup : ℕ → Pool → Option Page
lookup pg p = elim (find pg p.table) [ none ↦ none | some h ↦ some (p.pages h.page_array_id) ]

-- `Delete` gives the buffer back and writes nothing.
unfoldable pub delete_page : ℕ → Pool → Pool
delete_page pg p = elim (find pg p.table) [
  | none ↦ p
  | some h ↦ record (lru_remove pg p) {
    table = erase pg p.table;
    recent_evicted = p.recent_evicted ++ h.page_array_id ∷ [];
  }
]
