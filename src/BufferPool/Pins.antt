-- ===== src/BufferPool/Pins.antt =====
-- `Pin`, `Unpin`, `UnpinAndRelease`, `Delete` and `Lookup` on what a shard holds.
use aha_adaptive_hotspot_awa.Common.{
  ℕ, ◌+◌, ◌-◌, ◌<◌, ◌≡◌, ◌≢◌, refl, sym, ap, ◌∙◌, [], ◌∷◌, ◌++◌, length, false, none, some,
  word_mod, arith, inl, inr, ◌⊎◌, ℕ_discrete, Option-cases,
}
use mathlib.Core.Option.{some-injective}
use aha_adaptive_hotspot_awa.Dict.{find, put}
use aha_adaptive_hotspot_awa.TreePage.Layout.{Page}
use aha_adaptive_hotspot_awa.TreeFile.{TreeFile, get_page, clean, set_at, zero_page}
use aha_adaptive_hotspot_awa.TreeFile.Laws.{set_at_twice}
use aha_adaptive_hotspot_awa.BufferPool.{
  Pool, PageHandle, file_offset, may_overflow, insert_table, retrieve_handle, add_ref, pin, unpin,
}
use aha_adaptive_hotspot_awa.BufferPool.Valid.{
  IsPool, InShard, content, Keeps, content_in, content_out, map_clean-some,
}
use aha_adaptive_hotspot_awa.BufferPool.Overflow.{Evicts, may_overflow-Evicts}
use aha_adaptive_hotspot_awa.BufferPool.Buffers.{
  with_buffer, get_buffer-Free, installed, new_handle, installed-Installs,
}
use aha_adaptive_hotspot_awa.BufferPool.Counted.{Recounts, add_ref-Recounts, drop_ref-Recounts}

-- There is room for a page, or a page that can leave.
abbrev pub HasRoom : Pool → Type 0
HasRoom p = (length p.table < p.max_num) ⊎ (p.lru ≢ [])

-- With room `MayOverflow` lets the call go on.
pub overflow_room :
    (shard : ℕ) (p : Pool)
    → IsPool shard p
    → HasRoom p
    → (q : Pool) × (may_overflow p ≡ some (q, false))
      × Evicts shard p q
      × (length q.table < q.max_num)
overflow_room shard p pool room =
    let (q, full, run, ev, ended) = may_overflow-Evicts shard p pool in
    elim ended [
      | inl e ↦ (q, run ∙ ap (λ b. some (q, b)) e.0, ev, e.1)
      | inr e ↦ absurd (elim room [ inl r ↦ let (_, _, l) = e in omega arith | inr ne ↦ ne (e.1) ])
    ]

-- A page that is not in the pool comes in from the file.
pub record Fetched (shard pg : ℕ) (c : Page) (p q : Pool) (h : PageHandle) : Type 0 where
  pub pool : IsPool shard q
  pub keeps : Keeps shard p q
  pub handle : find pg q.table ≡ some h
  pub read : clean (q.pages h.page_array_id) ≡ c
  pub held :
      (a : ℕ) (k : PageHandle)
      → find a p.table ≡ some k
      → k.refs ≢ 0
      → (find a q.table ≡ some k) × (q.pages k.page_array_id ≡ p.pages k.page_array_id)

present :
    (shard pg : ℕ) (c : Page) (p : Pool) (h : PageHandle)
    → IsPool shard p
    → content p pg ≡ some c
    → find pg p.table ≡ some h
    → Fetched shard pg c p p h
present shard pg c p h pool e found = record {
  pool = pool;
  keeps = λ a d own f. f;
  handle = found;
  read = some-injective _ _ (sym (content_in p pg h found) ∙ e);
  held = λ a k f ne. (f, refl);
}

pub insert_put :
    (i pg : ℕ) (p : Pool)
    → find pg p.table ≡ none
    → insert_table i pg p
      ≡ some (record p { table = put pg (new_handle i) p.table; lru = p.lru ++ pg ∷ [] })
unfolding insert_table
insert_put i pg p e = rw (insert_table, e) refl

known_page : (i : ℕ) (f : TreeFile) (d : Page) → get_page i f ≡ some d → i < f.page_num
unfolding get_page
known_page i f d e = ground arith

fetched :
    (shard pg : ℕ) (c : Page) (p : Pool)
    → IsPool shard p
    → InShard shard pg
    → content p pg ≡ some c
    → HasRoom p
    → find pg p.table ≡ none
    → (q : Pool) × (h : PageHandle) × (retrieve_handle pg p ≡ some (q, h))
      × Fetched shard pg c p q h
      × (h.refs ≡ 0)
unfolding retrieve_handle
fetched shard pg c p pool own e room absent =
    let (q, over, ev, free_place) = overflow_room shard p pool room in
    let (i, n, rest, got, free) = get_buffer-Free shard q ev.pool free_place in
    let absent' = ev.gone pg absent in
    let (d, read, same) =
      map_clean-some _ c (sym (content_out q pg absent') ∙ ev.keeps pg c own e) in
    let read16 = ap (λ m. get_page (file_offset m pg) q.file) (sym ev.pool.shards) ∙ read in
    let known = known_page (file_offset 16 pg) q.file d read16 in
    let r = installed q i n rest pg d q.file in
    let put_in = record (with_buffer q i n rest) {
      pages = set_at (set_at q.pages i zero_page) i d;
    } in
    let ins =
      installed-Installs shard q i n rest pg d q.file ev.pool free absent' own (omega arith) known
        (λ j b g. g) (λ b. read16) in
    (
      r,
      new_handle i,
      rw (retrieve_handle, absent, over, got, read, insert_put i pg put_in absent')
          (ap (λ pages. some (record r { pages = pages }, new_handle i))
            (set_at_twice q.pages i zero_page d)),
      record {
        pool = ins.pool;
        keeps = λ a b own' g. elim (ℕ_discrete a pg) [
          | yes x ↦ ap (content r) x ∙ ins.self ∙ ap some same ∙ sym e ∙ ap (content p) (sym x) ∙ g
          | no ne ↦ ins.other a b ne (ev.keeps a b own' g)
        ];
        handle = ins.handle;
        read = ap clean ins.buffer ∙ same;
        held = λ a k f ne.
            let (at, buffer) = ev.held a k f ne in
            let (at', buffer') = ins.held a k at in (at', buffer' ∙ buffer);
      },
      refl,
    )

-- `RetrieveHandle` of a page that the shard holds.
retrieved :
    (shard pg : ℕ) (c : Page) (p : Pool)
    → IsPool shard p
    → InShard shard pg
    → content p pg ≡ some c
    → HasRoom p
    → ((h : PageHandle) → find pg p.table ≡ some h → h.refs + 1 < word_mod)
    → (q : Pool) × (h : PageHandle) × (retrieve_handle pg p ≡ some (q, h))
      × Fetched shard pg c p q h
      × (h.refs + 1 < word_mod)
unfolding retrieve_handle
retrieved shard pg c p pool own e room few = elim (Option-cases (find pg p.table)) [
  | inl absent ↦
      let (q, h, run, f, none_yet) = fetched shard pg c p pool own e room absent in
      (q, h, run, f, omega arith)
  | inr (h, found) ↦
      (p, h, rw (retrieve_handle, found) refl, present shard pg c p h pool e found, few h found)
]

-- A pinned page: what is read is what the shard held, in a buffer with a reference. The contents and
-- the buffers of all pages that had references stay.
pub record Pinned (shard pg : ℕ) (c : Page) (p q : Pool) (page : Page) : Type 0 where
  pub pool : IsPool shard q
  pub keeps : Keeps shard p q
  pub read : clean page ≡ c
  pub handle :
      (h : PageHandle) × (find pg q.table ≡ some h)
      × (0 < h.refs)
      × (q.pages h.page_array_id ≡ page)
  pub held :
      (a : ℕ) (k : PageHandle)
      → a ≢ pg
      → find a p.table ≡ some k
      → k.refs ≢ 0
      → (find a q.table ≡ some k) × (q.pages k.page_array_id ≡ p.pages k.page_array_id)

-- In a well-formed shard with room, or with a page without references, the pin of a page of the
-- shard that it holds, with fewer than 2 ^ 32 - 1 references, returns it pinned.
pub pin-Pinned :
    (shard pg : ℕ) (c : Page) (p : Pool)
    → IsPool shard p
    → InShard shard pg
    → content p pg ≡ some c
    → HasRoom p
    → ((h : PageHandle) → find pg p.table ≡ some h → h.refs + 1 < word_mod)
    → (q : Pool) × (page : Page) × (pin pg p ≡ some (q, page)) × Pinned shard pg c p q page
unfolding pin
pin-Pinned shard pg c p pool own e room few =
    let (q, h, run, f, small) = retrieved shard pg c p pool own e room few in
    let r = add_ref-Recounts shard q pg h f.pool f.handle small in
    (
      add_ref pg h q,
      q.pages h.page_array_id,
      rw (pin, run) refl,
      record {
        pool = r.pool;
        keeps = λ a b own' g. r.contents a ∙ f.keeps a b own' g;
        read = f.read;
        handle = (
          record h { refs = h.refs + 1 },
          r.handle,
          omega arith,
          ap (λ pages. pages h.page_array_id) r.buffers,
        );
        held = λ a k ne g some_refs.
            let (at, buffer) = f.held a k g some_refs in
            (r.others a ne ∙ at, ap (λ pages. pages k.page_array_id) r.buffers ∙ buffer);
      },
    )

-- The unpin of a page with references passes its assertion, takes one reference, and leaves the
-- shard well-formed, its contents and its buffers as they are.
pub unpin-Recounts :
    (shard pg : ℕ) (p : Pool) (h : PageHandle)
    → IsPool shard p
    → find pg p.table ≡ some h
    → 0 < h.refs
    → h.refs < word_mod
    → (q : Pool) × (unpin pg p ≡ some q) × Recounts shard pg h (h.refs - 1) p q
unfolding unpin
unpin-Recounts shard pg p h pool found some_refs small =
    let (q, run, r) = drop_ref-Recounts shard p pg h pool found some_refs small in
    (q, rw (unpin, found) run, r)
