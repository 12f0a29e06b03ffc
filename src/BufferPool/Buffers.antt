-- ===== src/BufferPool/Buffers.antt =====
-- A buffer is taken and a page put into it.
use aha_adaptive_hotspot_awa.Common.{
  ℕ, ◌+◌, ◌≤◌, ◌<◌, ◌≡◌, ◌≢◌, refl, sym, ap, ◌∙◌, List, [], ◌∷◌, ◌++◌, length, true, false, Option,
  none, some, has, all_distinct, has-last, arith, inl, inr, ◌⊎◌, ℕ_discrete, subst,
}
use aha_adaptive_hotspot_awa.Dict.{find, put}
use aha_adaptive_hotspot_awa.Dict.Laws.{
  find-put_self, find-put_other, find-put_found, put-distinct, length-put_new,
}
use aha_adaptive_hotspot_awa.TreePage.Layout.{Page}
use aha_adaptive_hotspot_awa.TreeFile.{TreeFile, zero_page, set_at, get_page, clean}
use aha_adaptive_hotspot_awa.TreeFile.Laws.{set_at_self, set_at_other}
use aha_adaptive_hotspot_awa.BufferPool.{Pool, PageHandle, file_offset, take_buffer, get_buffer}
use aha_adaptive_hotspot_awa.BufferPool.Valid.{
  IsPool, InShard, content, content_in, content_out, map_clean, map_clean-some,
}

-- A free buffer `i`, with `n` buffers and `rest` of them free beside it.
pub record Free (p : Pool) (i n : ℕ) (rest : List ℕ) : Type 0 where
  pub within : i < n
  pub more : p.pages_num ≤ n
  pub bounded : n ≤ p.max_num
  pub counted : n ≡ length p.table + length rest + 1
  pub fresh : (a : ℕ) (h : PageHandle) → find a p.table ≡ some h → h.page_array_id ≢ i
  pub once : has i rest ≡ false
  pub distinct : all_distinct rest ≡ true
  pub spare : (j : ℕ) → has j rest ≡ true → j < n
  pub unused : (a : ℕ) (h : PageHandle) → find a p.table ≡ some h → has h.page_array_id rest ≡ false

abbrev pub with_buffer : Pool → ℕ → ℕ → List ℕ → Pool
with_buffer p i n rest = record p {
  pages_num = n;
  recent_evicted = rest;
  pages = set_at p.pages i zero_page;
}

has_head : (i : ℕ) (xs : List ℕ) → has i (i ∷ xs) ≡ true
unfolding has
has_head i xs = ground arith

old_buffer :
    (shard : ℕ) (p : Pool)
    → IsPool shard p
    → (i : ℕ) (rest : List ℕ) → p.recent_evicted ≡ i ∷ rest
    → Free p i p.pages_num rest
unfolding has all_distinct
old_buffer shard p pool i rest e = record {
  within = pool.spare i (ap (has i) e ∙ has_head i rest);
  more = omega arith;
  bounded = pool.bounded;
  counted = omega (arith, pool.counted, ap length e);
  fresh = λ a h f. let u = pool.unused a h f in ground arith;
  once = let d = pool.distinct in ground arith;
  distinct = let d = pool.distinct in ground arith;
  spare = λ j on. pool.spare j (ground arith);
  unused = λ a h f. let u = pool.unused a h f in ground arith;
}

new_buffer-Free :
    (shard : ℕ) (p : Pool)
    → IsPool shard p
    → length p.table < p.max_num
    → p.recent_evicted ≡ []
    → Free p p.pages_num (p.pages_num + 1) []
unfolding has all_distinct
new_buffer-Free shard p pool room e = record {
  within = omega arith;
  more = omega arith;
  bounded = omega (arith, pool.counted, ap length e);
  counted = omega (arith, pool.counted, ap length e);
  fresh = λ a h f. let u = pool.used a h f in λ i. omega arith;
  once = refl;
  distinct = refl;
  spare = λ j on. absurd (cc);
  unused = λ a h f. refl;
}

get_buffer_old :
    (p : Pool) (i : ℕ) (rest : List ℕ)
    → p.recent_evicted ≡ i ∷ rest
    → get_buffer p ≡ some (with_buffer p i p.pages_num rest, i)
unfolding get_buffer take_buffer
get_buffer_old p i rest e = ground arith

get_buffer_new :
    (p : Pool)
    → p.recent_evicted ≡ []
    → p.pages_num + 1 ≤ p.max_num
    → get_buffer p ≡ some (with_buffer p p.pages_num (p.pages_num + 1) [], p.pages_num)
unfolding get_buffer take_buffer
get_buffer_new p e fits = ground arith

-- With room in the table there is a free buffer, and the assertion on their number passes.
pub get_buffer-Free :
    (shard : ℕ) (p : Pool)
    → IsPool shard p
    → length p.table < p.max_num
    → (i n : ℕ) × (rest : List ℕ) × (get_buffer p ≡ some (with_buffer p i n rest, i))
      × Free p i n rest
get_buffer-Free shard p pool room = step p.recent_evicted refl
  where
    step :
        (xs : List ℕ)
        → p.recent_evicted ≡ xs
        → (i n : ℕ) × (rest : List ℕ) × (get_buffer p ≡ some (with_buffer p i n rest, i))
          × Free p i n rest
    step [] e =
        let free = new_buffer-Free shard p pool room e in
        (p.pages_num, p.pages_num + 1, [], get_buffer_new p e free.bounded, free)
    step (i ∷ rest) e =
        (i, p.pages_num, rest, get_buffer_old p i rest e, old_buffer shard p pool i rest e)

abbrev pub new_handle : ℕ → PageHandle
new_handle i = record { page_array_id = i; refs = 0 }

-- The pool with a page in the buffer, on the list of pages without references.
abbrev pub installed : Pool → ℕ → ℕ → List ℕ → ℕ → Page → TreeFile → Pool
installed p i n rest pg page file = record p {
  table = put pg (new_handle i) p.table;
  lru = p.lru ++ pg ∷ [];
  pages = set_at p.pages i page;
  pages_num = n;
  recent_evicted = rest;
  file = file;
}

-- What a page that comes in brings, and what it leaves.
pub record Installs (shard : ℕ) (p q : Pool) (pg i : ℕ) (page : Page) : Type 0 where
  pub pool : IsPool shard q
  pub handle : find pg q.table ≡ some (new_handle i)
  pub buffer : q.pages i ≡ page
  pub self : content q pg ≡ some (clean page)
  pub other : (a : ℕ) (c : Page) → a ≢ pg → content p a ≡ some c → content q a ≡ some c
  pub gone : (a : ℕ) → a ≢ pg → find a p.table ≡ none → find a q.table ≡ none
  pub held :
      (a : ℕ) (h : PageHandle)
      → find a p.table ≡ some h
      → (find a q.table ≡ some h) × (q.pages h.page_array_id ≡ p.pages h.page_array_id)

module _ (shard : ℕ) (p : Pool) (i n : ℕ) (rest : List ℕ) (pg : ℕ) (page : Page) (file : TreeFile)
    (pool : IsPool shard p) (free : Free p i n rest) (absent : find pg p.table ≡ none)
    (own : InShard shard pg) (num : p.file.page_num ≤ file.page_num)
    (known : file_offset 16 pg < file.page_num)
    (kept : (j : ℕ) (c : Page) → get_page j p.file ≡ some c → get_page j file ≡ some c)
    (filed : page.is_dirty ≡ false → get_page (file_offset 16 pg) file ≡ some page) where
  here : find pg (put pg (new_handle i) p.table) ≡ some (new_handle i)
  here = find-put_self pg (new_handle i) p.table

  there : (a : ℕ) → a ≢ pg → find a (put pg (new_handle i) p.table) ≡ find a p.table
  there a ne = find-put_other pg a (new_handle i) p.table ne

  -- A handle of the new table is the new one or was there.
  origin :
      (a : ℕ) (h : PageHandle)
      → find a (put pg (new_handle i) p.table) ≡ some h
      → ((a ≡ pg) × (new_handle i ≡ h)) ⊎ ((a ≢ pg) × (find a p.table ≡ some h))
  origin a h e = find-put_found pg a (new_handle i) h p.table e

  other_page :
      (a : ℕ) (h : PageHandle)
      → find a p.table ≡ some h
      → set_at p.pages i page h.page_array_id ≡ p.pages h.page_array_id
  other_page a h e = set_at_other p.pages i page h.page_array_id (free.fresh a h e)

  new_apart :
      (a b : ℕ) (h k : PageHandle)
      → find a (put pg (new_handle i) p.table) ≡ some h
      → find b (put pg (new_handle i) p.table) ≡ some k
      → h.page_array_id ≡ k.page_array_id
      → a ≡ b
  new_apart a b h k e f same = elim (origin a h e) [
    | inl x ↦ elim (origin b k f) [
      | inl y ↦ x.0 ∙ sym y.0
      | inr y ↦ absurd (free.fresh b k y.1 (sym same ∙ ap (λ t. t.page_array_id) (sym x.1)))
    ]
    | inr x ↦ elim (origin b k f) [
      | inl y ↦ absurd (free.fresh a h x.1 (same ∙ ap (λ t. t.page_array_id) (sym y.1)))
      | inr y ↦ pool.apart a b h k x.1 y.1 same
    ]
  ]

  new_idle :
      (a : ℕ)
      → has a (p.lru ++ pg ∷ []) ≡ true
      → (h : PageHandle) × (find a (put pg (new_handle i) p.table) ≡ some h) × (h.refs ≡ 0)
  new_idle a on = elim (ℕ_discrete a pg) [
    | yes e ↦ (new_handle i, ap (λ x. find x (put pg (new_handle i) p.table)) e ∙ here, refl)
    | no ne ↦
        let parts = has-last a pg p.lru in
        let (h, f, z) = pool.idle a (ground arith) in (h, there a ne ∙ f, z)
  ]

  new_same :
      (a : ℕ) (h : PageHandle)
      → find a (put pg (new_handle i) p.table) ≡ some h
      → (set_at p.pages i page h.page_array_id).is_dirty ≡ false
      → get_page (file_offset 16 a) file ≡ some (set_at p.pages i page h.page_array_id)
  new_same a h e clear = elim (origin a h e) [
    | inl x ↦
        let at : set_at p.pages i page h.page_array_id ≡ page =
          ap (λ t. set_at p.pages i page t.page_array_id) (sym x.1) ∙ set_at_self p.pages i page in
        ap (λ b. get_page (file_offset 16 b) file) x.0
        ∙ filed (ap (λ t. t.is_dirty) (sym at) ∙ clear)
        ∙ ap some (sym at)
    | inr x ↦
        let at = other_page a h x.1 in
        kept _ _ (pool.same a h x.1 (ap (λ t. t.is_dirty) (sym at) ∙ clear)) ∙ ap some (sym at)
  ]

  installed-IsPool : IsPool shard (installed p i n rest pg page file)
  installed-IsPool = record {
    shards = pool.shards;
    small = pool.small;
    unique = put-distinct pg (new_handle i) p.table pool.unique;
    owned = λ a h e. elim (origin a h e) [
      | inl x ↦ subst (InShard shard) (sym x.0) own
      | inr x ↦ pool.owned a h x.1
    ];
    known = λ a h e. elim (origin a h e) [
      | inl x ↦ subst (λ b. file_offset 16 b < file.page_num) (sym x.0) known
      | inr x ↦ omega (arith, pool.known a h x.1)
    ];
    used = λ a h e. elim (origin a h e) [
      | inl x ↦ omega (arith, free.within, ap (λ t. t.page_array_id) x.1)
      | inr x ↦ omega (arith, free.more, pool.used a h x.1)
    ];
    apart = new_apart;
    spare = free.spare;
    unused = λ a h e. elim (origin a h e) [
      | inl x ↦ ap (λ t. has t.page_array_id rest) (sym x.1) ∙ free.once
      | inr x ↦ free.unused a h x.1
    ];
    distinct = free.distinct;
    counted = omega (arith, free.counted, length-put_new pg (new_handle i) p.table absent);
    bounded = free.bounded;
    idle = new_idle;
    listed = λ a h e z. elim (origin a h e) [
      | inl x ↦ ground (arith, has-last a pg p.lru)
      | inr x ↦ ground (arith, has-last a pg p.lru, pool.listed a h x.1 z)
    ];
    same = new_same;
  }

  -- The page holds what was put there, and the others what they held.
  installed_self : content (installed p i n rest pg page file) pg ≡ some (clean page)
  installed_self =
      content_in (installed p i n rest pg page file) pg (new_handle i) here
      ∙ ap (λ t. some (clean t)) (set_at_self p.pages i page)

  installed_other :
      (a : ℕ) (c : Page)
      → a ≢ pg
      → content p a ≡ some c
      → content (installed p i n rest pg page file) a ≡ some c
  installed_other a c ne e = step (find a p.table) refl
    where
      step :
          (o : Option PageHandle)
          → find a p.table ≡ o
          → content (installed p i n rest pg page file) a ≡ some c
      step none f =
          let (d, g, cl) = map_clean-some _ c (sym (content_out p a f) ∙ e) in
          content_out (installed p i n rest pg page file) a (there a ne ∙ f)
          ∙ ap map_clean (kept _ d g)
          ∙ ap some cl
      step (some h) f =
          content_in (installed p i n rest pg page file) a h (there a ne ∙ f)
          ∙ ap (λ t. some (clean t)) (other_page a h f)
          ∙ sym (content_in p a h f)
          ∙ e

  installed_held :
      (a : ℕ) (h : PageHandle)
      → find a p.table ≡ some h
      → (find a (installed p i n rest pg page file).table ≡ some h)
        × ((installed p i n rest pg page file).pages h.page_array_id ≡ p.pages h.page_array_id)
  installed_held a h e = elim (ℕ_discrete a pg) [
    | yes i ↦
        absurd (let bad : none ≡ some h = sym absent ∙ ap (λ x. find x p.table) (sym i) ∙ e in cc)
    | no ne ↦ (there a ne ∙ e, other_page a h e)
  ]

  pub installed-Installs : Installs shard p (installed p i n rest pg page file) pg i page
  installed-Installs = record {
    pool = installed-IsPool;
    handle = here;
    buffer = set_at_self p.pages i page;
    self = installed_self;
    other = installed_other;
    gone = λ a ne e. there a ne ∙ e;
    held = installed_held;
  }
