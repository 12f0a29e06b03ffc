-- ===== src/BufferPool/Created.antt =====
-- `Allocate` on what a shard holds.
use aha_adaptive_hotspot_awa.Common.{
  ℕ, zero, suc, ◌+◌, ◌≤◌, ◌<◌, ◌≡◌, ◌≢◌, refl, sym, ap, ◌∙◌, false, Option, none, some, leb,
  word_mod, arith, add32, add32_small, inl, inr, Bool-cases,
}
use aha_adaptive_hotspot_awa.Dict.{find}
use aha_adaptive_hotspot_awa.TreePage.Layout.{Page, page_init}
use aha_adaptive_hotspot_awa.TreeFile.{TreeFile, get_page, clean, set_at, zero_page, get_new_pageid}
use aha_adaptive_hotspot_awa.TreeFile.Laws.{set_at_twice, set_at_self}
use aha_adaptive_hotspot_awa.BufferPool.{Pool, PageHandle, file_offset}
use aha_adaptive_hotspot_awa.BufferPool.Valid.{
  IsPool, InShard, content, file_offset_lem, map_clean, map_clean-some, content_in, content_out,
}
use aha_adaptive_hotspot_awa.BufferPool.Allocated.{grow_file, new_buffer, allocate}
use aha_adaptive_hotspot_awa.BufferPool.Buffers.{
  with_buffer, get_buffer-Free, installed, installed-Installs,
}
use aha_adaptive_hotspot_awa.BufferPool.Pins.{HasRoom, overflow_room, insert_put}

-- The loop gives out file pages until the page at `loc` is one of them.
grow_file_lem :
    (n loc : ℕ) (f : TreeFile)
    → loc < f.page_num + n
    → loc + 1 < word_mod
    → (m : ℕ) × (grow_file n f.page_num loc f ≡ record f { page_num = m })
      × (loc < m)
      × (f.page_num ≤ m)
unfolding grow_file
grow_file_lem zero loc f fuel small = (f.page_num, refl, omega arith, omega arith)
grow_file_lem (suc n) loc f fuel small = elim (Bool-cases (leb f.page_num loc)) [
  | inr enough ↦ (f.page_num, rw (grow_file, enough) refl, ground arith, omega arith)
  | inl more ↦
      let next : add32 f.page_num 1 ≡ f.page_num + 1 = add32_small f.page_num 1 (ground arith) in
      let (m, run, above, up) =
        grow_file_lem n loc (get_new_pageid f).0 (omega (arith, next)) small in
      (m, rw (grow_file, more) run, above, omega (arith, next))
]

init_dirty :
    (pg : ℕ) {o : Option Page}
    → (page_init zero_page pg).is_dirty ≡ false
    → o ≡ some (page_init zero_page pg)
unfolding page_init
init_dirty pg e = absurd (cc)

kept_growing :
    (f : TreeFile) (m j : ℕ) (c : Page)
    → f.page_num ≤ m
    → get_page j f ≡ some c
    → get_page j (record f { page_num = m }) ≡ some c
unfolding get_page
kept_growing f m j c up e = ground arith

grown-IsPool :
    (shard m : ℕ) (p : Pool)
    → IsPool shard p
    → p.file.page_num ≤ m
    → IsPool shard (record p { file = record p.file { page_num = m } })
grown-IsPool shard m p pool up = record {
  shards = pool.shards;
  small = pool.small;
  unique = pool.unique;
  owned = pool.owned;
  used = pool.used;
  apart = pool.apart;
  spare = pool.spare;
  unused = pool.unused;
  distinct = pool.distinct;
  counted = pool.counted;
  bounded = pool.bounded;
  idle = pool.idle;
  listed = pool.listed;
  known = λ a h e. omega (arith, pool.known a h e);
  same = λ a h e clear. kept_growing p.file m _ _ up (pool.same a h e clear);
}

grown_content :
    (m a : ℕ) (c : Page) (p : Pool)
    → p.file.page_num ≤ m
    → content p a ≡ some c
    → content (record p { file = record p.file { page_num = m } }) a ≡ some c
grown_content m a c p up e = step (find a p.table) refl
  where
    step :
        (o : Option PageHandle)
        → find a p.table ≡ o
        → content (record p { file = record p.file { page_num = m } }) a ≡ some c
    step none f =
        let (d, g, cl) = map_clean-some _ c (sym (content_out p a f) ∙ e) in
        content_out (record p { file = record p.file { page_num = m } }) a f
        ∙ ap map_clean (kept_growing p.file m _ d up g)
        ∙ ap some cl
    step (some h) f =
        content_in (record p { file = record p.file { page_num = m } }) a h f
        ∙ sym (content_in p a h f)
        ∙ e

-- In a well-formed shard with room, or with a page without references, the allocation of a page of
-- the shard that is not in the pool returns. The page is empty, the others hold what they held, and
-- no other page comes in.
pub allocate_lem :
    (shard pg : ℕ) (p : Pool)
    → IsPool shard p
    → InShard shard pg
    → find pg p.table ≡ none
    → HasRoom p
    → (q : Pool) × (allocate pg p ≡ some q)
      × IsPool shard q
      × (content q pg ≡ some (clean (page_init zero_page pg)))
      × ((a : ℕ) (c : Page)
          → InShard shard a
          → a ≢ pg
          → content p a ≡ some c
          → content q a ≡ some c)
      × ((a : ℕ) → a ≢ pg → find a p.table ≡ none → find a q.table ≡ none)
unfolding allocate new_buffer
allocate_lem shard pg p pool own absent room =
    let (q, over, ev, free_place) = overflow_room shard p pool room in
    let loc = file_offset q.shard_num pg in
    let at_loc : loc ≡ file_offset 16 pg = ap (λ n. file_offset n pg) ev.pool.shards in
    let short : loc + 1 < word_mod = omega (arith, at_loc, file_offset_lem shard pg own) in
    let (m, grow, above, up) = grow_file_lem (loc + 1) loc q.file (omega arith) short in
    let g = record q { file = record q.file { page_num = m } } in
    let g_pool = grown-IsPool shard m q ev.pool up in
    let (i, n, rest, got, free) = get_buffer-Free shard g g_pool free_place in
    let absent' = ev.gone pg absent in
    let page = page_init zero_page pg in
    let put_in = record (with_buffer g i n rest) {
      pages = set_at (set_at g.pages i zero_page) i (page_init (set_at g.pages i zero_page i) pg);
    } in
    let ins =
      installed-Installs shard g i n rest pg page g.file g_pool free absent' own (omega arith)
        (omega arith) (λ j b e. e) (λ b. init_dirty pg b) in
    (
      installed g i n rest pg page g.file,
      rw (allocate, over, grow, got, insert_put i pg put_in absent')
          (ap (λ pages. some (record (installed g i n rest pg page g.file) { pages = pages }))
            (set_at_twice g.pages i zero_page _
              ∙ ap (λ z. set_at g.pages i (page_init z pg)) (set_at_self g.pages i zero_page))),
      ins.pool,
      ins.self,
      λ a c own' ne e. ins.other a c ne (grown_content m a c q up (ev.keeps a c own' e)),
      λ a ne e. ins.gone a ne (ev.gone a e),
    )
