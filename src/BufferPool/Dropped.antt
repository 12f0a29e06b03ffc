-- ===== src/BufferPool/Dropped.antt =====
-- A page leaves the pool.
use aha_adaptive_hotspot_awa.Common.{
  ℕ, ◌+◌, ◌<◌, ◌≡◌, ◌≢◌, refl, sym, ap, ◌∙◌, [], ◌∷◌, ◌++◌, length, length-append, false, Option,
  none, some, has-last, has-without, all_distinct-last, arith, Bool-cases, inl, inr, ℕ_discrete,
}
use aha_adaptive_hotspot_awa.Dict.{find, erase}
use aha_adaptive_hotspot_awa.Dict.Laws.{
  find-erase_self, find-erase_other, find-erase_found, erase-distinct, length-erase,
}
use aha_adaptive_hotspot_awa.TreePage.Layout.{Page}
use aha_adaptive_hotspot_awa.TreeFile.{TreeFile, get_page, clean, set_at, write_page, write_at}
use aha_adaptive_hotspot_awa.TreeFile.Laws.{set_at_other, get-write_at_self, get-write_at_other}
use aha_adaptive_hotspot_awa.BufferPool.{Pool, PageHandle, file_offset, lru_remove, evict}
use aha_adaptive_hotspot_awa.BufferPool.Valid.{
  IsPool, InShard, content, Keeps, file_offset_ne, map_clean, content_in, content_out,
  map_clean-some,
}

-- The pool without a page, whose buffer and file may have changed.
abbrev pub dropped : ℕ → PageHandle → Page → TreeFile → Pool → Pool
dropped pg h page file p = record (lru_remove pg p) {
  table = erase pg p.table;
  pages = set_at p.pages h.page_array_id page;
  recent_evicted = p.recent_evicted ++ h.page_array_id ∷ [];
  file = file;
}

module _ (shard pg : ℕ) (h : PageHandle) (page : Page) (file : TreeFile) (p : Pool)
    (pool : IsPool shard p) (found : find pg p.table ≡ some h)
    (nums : file.page_num ≡ p.file.page_num)
    (others : (a : ℕ) (c : Page)
      → InShard shard a
      → a ≢ pg
      → get_page (file_offset 16 a) p.file ≡ some c
      → get_page (file_offset 16 a) file ≡ some c) where
  was :
      (a : ℕ) (k : PageHandle)
      → find a (erase pg p.table) ≡ some k
      → (a ≢ pg) × (find a p.table ≡ some k)
  was a k e = find-erase_found pg a k p.table pool.unique e

  kept_page :
      (a : ℕ) (k : PageHandle)
      → a ≢ pg
      → find a p.table ≡ some k
      → set_at p.pages h.page_array_id page k.page_array_id ≡ p.pages k.page_array_id
  kept_page a k ne e =
      set_at_other p.pages h.page_array_id page k.page_array_id
        (λ i. ne (pool.apart a pg k h e found i))

  pub dropped-IsPool : IsPool shard (dropped pg h page file p)
  dropped-IsPool = record {
    shards = pool.shards;
    small = pool.small;
    unique = erase-distinct pg p.table pool.unique;
    owned = λ a k e. pool.owned a k (was a k e).1;
    known = λ a k e. omega (arith, pool.known a k (was a k e).1);
    used = λ a k e. pool.used a k (was a k e).1;
    apart = λ a b k l e f. pool.apart a b k l (was a k e).1 (was b l f).1;
    spare = λ i e.
        ground
          (arith, has-last i h.page_array_id p.recent_evicted, pool.spare i, pool.used pg h found);
    unused = λ a k e.
        let (ne, f) = was a k e in
        let free = pool.unused a k f in
        let other : h.page_array_id ≢ k.page_array_id =
          λ i. ne (pool.apart a pg k h f found (sym i)) in
        ground (arith, has-last k.page_array_id h.page_array_id p.recent_evicted);
    distinct =
        all_distinct-last h.page_array_id p.recent_evicted pool.distinct (pool.unused pg h found);
    counted = omega (
      arith,
      pool.counted,
      length-append p.recent_evicted (h.page_array_id ∷ []),
      length-erase pg h p.table found,
    );
    bounded = pool.bounded;
    idle = λ a e.
        let parts = has-without a pg p.lru in
        let (k, f, z) = pool.idle a (ground arith) in
        (k, find-erase_other pg a p.table (λ i. ground arith) ∙ f, z);
    listed = λ a k e z.
        let (ne, f) = was a k e in
        let on = pool.listed a k f z in let parts = has-without a pg p.lru in ground arith;
    same = λ a k e clear.
        let (ne, f) = was a k e in
        let keep = kept_page a k ne f in
        others a _ (pool.owned a k f) ne (pool.same a k f (ap (λ x. x.is_dirty) (sym keep) ∙ clear))
        ∙ ap some (sym keep);
  }

  -- What the other pages hold is as before.
  pub dropped_other :
      (a : ℕ) (c : Page)
      → InShard shard a
      → a ≢ pg
      → content p a ≡ some c
      → content (dropped pg h page file p) a ≡ some c
  unfolding content
  dropped_other a c own ne e = step (find a p.table) refl
    where
      step :
          (o : Option PageHandle)
          → find a p.table ≡ o
          → content (dropped pg h page file p) a ≡ some c
      step none f =
          let (pc, g, cl) = map_clean-some _ c (sym (content_out p a f) ∙ e) in
          content_out (dropped pg h page file p) a (find-erase_other pg a p.table ne ∙ f)
          ∙ ap map_clean (
              ap (λ n. get_page (file_offset n a) file) pool.shards
              ∙ others a pc own ne
                  (ap (λ n. get_page (file_offset n a) p.file) (sym pool.shards) ∙ g))
          ∙ ap some cl
      step (some k) f =
          content_in (dropped pg h page file p) a k (find-erase_other pg a p.table ne ∙ f)
          ∙ ap (λ x. some (clean x)) (kept_page a k ne f)
          ∙ sym (content_in p a k f)
          ∙ e

-- What a write to the file of a page leaves of the others.
written_others :
    (shard pg : ℕ) (page : Page) (file : TreeFile)
    → InShard shard pg
    → (a : ℕ) (c : Page) → InShard shard a
    → a ≢ pg
    → get_page (file_offset 16 a) file ≡ some c
    → get_page (file_offset 16 a) (write_page (file_offset 16 pg) page file).0 ≡ some c
unfolding write_page
written_others shard pg page file own a c own' ne e = elim (Bool-cases page.is_dirty) [
  | inl d ↦ rw d (
      get-write_at_other (file_offset 16 pg) (file_offset 16 a) (clean page) c file
        (file_offset_ne shard a pg own' own ne) e)
  | inr d ↦ rw d e
]

written_nums :
    (i : ℕ) (page : Page) (file : TreeFile) → (write_page i page file).0.page_num ≡ file.page_num
unfolding write_page write_at
written_nums i page file = ground arith

-- The page is in the file as the pool had it.
written_self :
    (i : ℕ) (page : Page) (file : TreeFile)
    → i < file.page_num
    → (page.is_dirty ≡ false → get_page i file ≡ some page)
    → map_clean (get_page i (write_page i page file).0) ≡ some (clean page)
unfolding write_page
written_self i page file known same = elim (Bool-cases page.is_dirty) [
  | inl d ↦ rw d (ap map_clean (get-write_at_self i (clean page) file known))
  | inr d ↦ rw d (ap map_clean (same d))
]

module _ (shard pg : ℕ) (h : PageHandle) (p : Pool) (pool : IsPool shard p)
    (found : find pg p.table ≡ some h) where
  evicted : Pool
  evicted =
      dropped pg h (write_page (file_offset 16 pg) (p.pages h.page_array_id) p.file).1
        (write_page (file_offset 16 pg) (p.pages h.page_array_id) p.file).0 p

  evict-evicted : evict pg h p ≡ evicted
  unfolding evict evicted
  evict-evicted =
      ap
        (λ n.
          dropped pg h (write_page (file_offset n pg) (p.pages h.page_array_id) p.file).1
            (write_page (file_offset n pg) (p.pages h.page_array_id) p.file).0 p)
        pool.shards

  pub evict-IsPool : IsPool shard (evict pg h p)
  unfolding evicted
  evict-IsPool = rw evict-evicted (
      dropped-IsPool shard pg h _ _ p pool found (written_nums _ _ _)
        (written_others shard pg (p.pages h.page_array_id) p.file (pool.owned pg h found)))

  evicted-content :
      (a : ℕ) (c : Page) → InShard shard a → content p a ≡ some c → content evicted a ≡ some c
  unfolding evicted
  evicted-content a c own e = elim (ℕ_discrete a pg) [
    | no ne ↦
        dropped_other shard pg h _ _ p pool found (written_nums _ _ _)
          (written_others shard pg (p.pages h.page_array_id) p.file (pool.owned pg h found)) a c own
          ne e
    | yes i ↦
        ap (content evicted) i
        ∙ content_out evicted pg (find-erase_self pg p.table pool.unique)
        ∙ ap (λ n. map_clean (get_page (file_offset n pg) evicted.file)) pool.shards
        ∙ written_self (file_offset 16 pg) (p.pages h.page_array_id) p.file (pool.known pg h found)
            (pool.same pg h found)
        ∙ sym (content_in p pg h found)
        ∙ ap (content p) (sym i)
        ∙ e
  ]

  -- An eviction keeps what the shard holds.
  pub evict-Keeps : Keeps shard p (evict pg h p)
  evict-Keeps a c own e = rw evict-evicted (evicted-content a c own e)

  pub evict_held :
      (a : ℕ) (k : PageHandle)
      → a ≢ pg
      → find a p.table ≡ some k
      → (find a (evict pg h p).table ≡ some k)
        × ((evict pg h p).pages k.page_array_id ≡ p.pages k.page_array_id)
  unfolding evict
  evict_held a k ne e = (
    find-erase_other pg a p.table ne ∙ e,
    kept_page shard pg h _ p.file p pool found refl (λ b c o n g. g) a k ne e,
  )

  pub evict_gone : (a : ℕ) → find a p.table ≡ none → find a (evict pg h p).table ≡ none
  unfolding evict
  evict_gone a e = elim (ℕ_discrete a pg) [
    | no ne ↦ find-erase_other pg a p.table ne ∙ e
    | yes i ↦ ap (λ x. find x (erase pg p.table)) i ∙ find-erase_self pg p.table pool.unique
  ]

  pub evict_num : (evict pg h p).file.page_num ≡ p.file.page_num
  unfolding evict
  evict_num = written_nums _ _ _

  pub length-evict : length (evict pg h p).table + 1 ≡ length p.table
  unfolding evict
  length-evict = length-erase pg h p.table found
