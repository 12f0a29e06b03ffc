-- ===== src/TreeFile.antt =====
-- src/wot_buf_mgr/free_space.{h,cc}, `TreeFile`: the file of a shard, page by page. A page that was not
-- written but lies before one that was reads as zeros. `none` is an abort. The calls of the C library
-- are taken to get through; a short read at the end of the file aborts.
pub mod Laws
use aha_adaptive_hotspot_awa.Common.{
  ℕ, zero, suc, ◌+◌, Bool, true, false, Option, none, some, ltb, leb, ◌==◌, if◌then◌else◌, add32,
}
use aha_adaptive_hotspot_awa.TreePage.Layout.{Page}

-- A page of zeros.
abbrev pub zero_page : Page
zero_page = record {
  opt_lock = 0;
  page_id = 0;
  item_num = 0;
  left = 0;
  right = 0;
  free_start = 0;
  free_end = 0;
  is_leaf = false;
  is_dirty = false;
  bytes = λ i. 0;
}

-- `written` is the length of the file in pages, `image` what stands in it.
pub record TreeFile : Type 0 where
  pub page_num : ℕ
  pub written : ℕ
  pub image : ℕ → Page

abbrev pub new_tree_file : TreeFile
new_tree_file = record { page_num = 0; written = 0; image = λ i. zero_page }

-- `GetNewPageid` returns the old `page_num_`.
abbrev pub get_new_pageid : TreeFile → TreeFile × ℕ
get_new_pageid f = (record f { page_num = add32 f.page_num 1 }, f.page_num)

-- An array with one place changed.
unfoldable pub set_at {ℓ} : {A : Type ℓ} → (ℕ → A) → ℕ → A → ℕ → A
set_at f i a j = if j == i then a else f j

-- `fseek` and `fwrite` of one page.
unfoldable pub write_at : ℕ → Page → TreeFile → TreeFile
write_at pg_id page f = record f {
  written = if ltb pg_id f.written then f.written else pg_id + 1;
  image = set_at f.image pg_id page;
}

unfoldable pub file_delete : ℕ → TreeFile → TreeFile
unfolding write_at
file_delete pg_id f = write_at pg_id zero_page f

abbrev pub clean : Page → Page
clean page = record page { is_dirty = false }

-- The file, and the page with its mark cleared.
unfoldable pub write_page : ℕ → Page → TreeFile → TreeFile × Page
unfolding write_at
write_page pg_id page f =
    if page.is_dirty then (write_at pg_id (clean page) f, clean page) else (f, page)

unfoldable pub get_page : ℕ → TreeFile → Option Page
get_page pg_id f =
    if leb f.page_num pg_id
    then none
    else (if ltb pg_id f.written then some (f.image pg_id) else none)
