-- ===== src/BufferPool/Allocated.antt =====
-- src/wot_buf_mgr/tree_buffer.cc, `Allocate` and `AllocateRoot`.
use aha_adaptive_hotspot_awa.Common.{
  ℕ, zero, suc, ◌+◌, [], ◌∷◌, ◌++◌, Option, none, some, ◌>>=◌, leb, if◌then◌else◌, add32,
}
use aha_adaptive_hotspot_awa.OptLock.{clear_lock}
use aha_adaptive_hotspot_awa.TreePage.Layout.{Page, page_init}
use aha_adaptive_hotspot_awa.TreeFile.{TreeFile, set_at, get_new_pageid}
use aha_adaptive_hotspot_awa.BufferPool.{
  Pool, file_offset, may_overflow, get_buffer, insert_table, put,
}

-- The loop that gives out file pages up to `page_loc`, on fuel.
unfoldable pub grow_file : ℕ → ℕ → ℕ → TreeFile → TreeFile
grow_file zero cur_offset page_loc f = f
grow_file (suc n) cur_offset page_loc f =
    let grown = grow_file n (add32 f.page_num 1) page_loc (get_new_pageid f).0 in
    if leb cur_offset page_loc then grown else f

-- Both calls up to the buffer, behind the file's growth.
unfoldable pub new_buffer : ℕ → Pool → Option (Pool × ℕ)
unfolding grow_file
new_buffer pg p = do
  (q, full) ← may_overflow p
  if full
      then none
      else (let page_loc = file_offset q.shard_num pg in
          get_buffer (record q { file = grow_file (page_loc + 1) q.file.page_num page_loc q.file }))

unfoldable pub allocate : ℕ → Pool → Option Pool
unfolding new_buffer
allocate pg p = do
  (q, i) ← new_buffer pg p
  insert_table i pg (record q { pages = set_at q.pages i (page_init (q.pages i) pg) })

-- The page goes into the table whether or not the number is there.
unfoldable pub allocate_root : ℕ → Page → Pool → Option Pool
unfolding new_buffer
allocate_root new_id old_root p = do
  (q, i) ← new_buffer new_id p
  some (record q {
    pages = set_at q.pages i (record old_root { page_id = new_id; opt_lock = clear_lock });
    table = put new_id (record { page_array_id = i; refs = 0 }) q.table;
    lru = q.lru ++ new_id ∷ [];
  })
