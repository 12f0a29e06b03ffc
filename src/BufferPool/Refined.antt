-- ===== src/BufferPool/Refined.antt =====
-- A shard as its clients see it: a store of pages. `Written` is a client that fills the buffer of a
-- page that it has pinned and marks it dirty.
pub mod Runs
use aha_adaptive_hotspot_awa.Common.{
  ℕ, zero, ◌+◌, ◌≤◌, ◌<◌, ◌≡◌, ◌≢◌, refl, sym, ap, ◌∙◌, List, [], ◌∷◌, Bool, true, false, ◌==◌,
  Option, none, some, if◌then◌else◌, word_mod, arith, inl, inr, ℕ_discrete, subst, has,
  all_distinct,
}
use mathlib.Core.Option.{some-injective}
use aha_adaptive_hotspot_awa.Dict.{find, dict_keys}
use aha_adaptive_hotspot_awa.TreePage.Layout.{Page, page_init}
use aha_adaptive_hotspot_awa.TreeFile.{clean, set_at, zero_page, get_page, TreeFile}
use aha_adaptive_hotspot_awa.TreeFile.Laws.{set_at_self, set_at_other}
use aha_adaptive_hotspot_awa.BufferPool.{
  Pool, PageHandle, pin, unpin, unpin_and_release, delete_page, new_pool,
}
use aha_adaptive_hotspot_awa.BufferPool.Allocated.{allocate}
use aha_adaptive_hotspot_awa.BufferPool.Valid.{IsPool, InShard, content, content_in, content_out}
use aha_adaptive_hotspot_awa.BufferPool.Pins.{HasRoom, pin-Pinned, unpin-Recounts}
use aha_adaptive_hotspot_awa.BufferPool.Released.{unpin_and_release-Keeps, delete_page_lem}
use aha_adaptive_hotspot_awa.BufferPool.Created.{allocate_lem}

-- The page behind a client's change.
abbrev pub fill_page : ℕ → Page → Pool → Pool
fill_page i page p = record p { pages = set_at p.pages i (record page { is_dirty = true }) }

pub data Call : Type 0 where
  pinned : ℕ → Call
  unpinned : ℕ → Call
  released : ℕ → Call
  deleted : ℕ → Call
  allocated : ℕ → Call
  written : ℕ → Page → Call

-- A call on the shard.
unfoldable pub run : Call → Pool → Option Pool
run (pinned pg) p = elim (pin pg p) [ none ↦ none | some r ↦ some r.0 ]
run (unpinned pg) p = unpin pg p
run (released pg) p = some (unpin_and_release pg p)
run (deleted pg) p = some (delete_page pg p)
run (allocated pg) p = allocate pg p
run (written pg page) p = elim (find pg p.table) [
  | none ↦ none
  | some h ↦ some (fill_page h.page_array_id page p)
]

abbrev pub Store : Type 0
Store = ℕ → Option Page

-- The same call on a store.
unfoldable pub replay : Call → Store → Store
replay (pinned pg) s = s
replay (unpinned pg) s = s
replay (released pg) s = s
replay (deleted pg) s = set_at s pg none
replay (allocated pg) s = set_at s pg (some (clean (page_init zero_page pg)))
replay (written pg page) s = set_at s pg (some (clean page))

-- A page of the shard that a client holds pinned.
abbrev pub IsHeld : ℕ → Pool → Type 0
IsHeld pg p = (h : PageHandle) × (find pg p.table ≡ some h) × (0 < h.refs) × (h.refs < word_mod)

-- When a client may call: it pins what was stored, with room in the pool, unpins, releases and
-- writes what it has pinned, and allocates what is not in the pool.
unfoldable pub IsAllowed : ℕ → Store → Pool → Call → Type 0
IsAllowed shard s p (pinned pg) =
    (c : Page) × (s pg ≡ some c)
    × InShard shard pg
    × HasRoom p
    × ((h : PageHandle) → find pg p.table ≡ some h → h.refs + 1 < word_mod)
IsAllowed shard s p (unpinned pg) = IsHeld pg p
IsAllowed shard s p (released pg) = IsHeld pg p
IsAllowed shard s p (deleted pg) = (h : PageHandle) × (find pg p.table ≡ some h)
IsAllowed shard s p (allocated pg) = InShard shard pg × (find pg p.table ≡ none) × HasRoom p
IsAllowed shard s p (written pg page) = IsHeld pg p

-- The shard is well-formed and holds each page that the store has.
pub record Refines (shard : ℕ) (p : Pool) (s : Store) : Type 0 where
  pub pool : IsPool shard p
  pub holds : (pg : ℕ) (c : Page) → InShard shard pg → s pg ≡ some c → content p pg ≡ some c

-- A store with one page changed, at that page and at another.
set_store :
    (shard pg : ℕ) (o : Option Page) (p q : Pool) (s : Store)
    → Refines shard p s
    → ((c : Page) → o ≡ some c → content q pg ≡ some c)
    → ((a : ℕ) (c : Page) → InShard shard a → a ≢ pg → content p a ≡ some c → content q a ≡ some c)
    → (a : ℕ) (c : Page) → InShard shard a
    → set_at s pg o a ≡ some c
    → content q a ≡ some c
set_store shard pg o p q s ref self other a c own e = elim (ℕ_discrete a pg) [
  | yes i ↦ ap (content q) i ∙ self c (sym (ap (set_at s pg o) i ∙ set_at_self s pg o) ∙ e)
  | no ne ↦ other a c own ne (ref.holds a c own (sym (set_at_other s pg o a ne) ∙ e))
]

filled_other :
    (shard pg : ℕ) (h : PageHandle) (page : Page) (p : Pool)
    → IsPool shard p
    → find pg p.table ≡ some h
    → (a : ℕ) (k : PageHandle) → a ≢ pg
    → find a p.table ≡ some k
    → (fill_page h.page_array_id page p).pages k.page_array_id ≡ p.pages k.page_array_id
filled_other shard pg h page p pool found a k ne e =
    set_at_other p.pages h.page_array_id _ k.page_array_id (λ i. ne (pool.apart a pg k h e found i))

filled-IsPool :
    (shard pg : ℕ) (h : PageHandle) (page : Page) (p : Pool)
    → IsPool shard p
    → find pg p.table ≡ some h
    → IsPool shard (fill_page h.page_array_id page p)
filled-IsPool shard pg h page p pool found = record {
  shards = pool.shards;
  small = pool.small;
  unique = pool.unique;
  owned = pool.owned;
  known = pool.known;
  used = pool.used;
  apart = pool.apart;
  spare = pool.spare;
  unused = pool.unused;
  distinct = pool.distinct;
  counted = pool.counted;
  bounded = pool.bounded;
  idle = pool.idle;
  listed = pool.listed;
  same = λ a k e clear. elim (ℕ_discrete a pg) [
    | yes i ↦
        let handle : h ≡ k =
          some-injective _ _ (sym found ∙ ap (λ b. find b p.table) (sym i) ∙ e) in
        let dirty : ((fill_page h.page_array_id page p).pages k.page_array_id).is_dirty ≡ true =
          ap
            (λ (t : PageHandle).
              ((fill_page h.page_array_id page p).pages t.page_array_id).is_dirty)
            (sym handle)
          ∙ ap (λ (t : Page). t.is_dirty) (set_at_self p.pages h.page_array_id _) in
        absurd (cc)
    | no ne ↦
        let at = filled_other shard pg h page p pool found a k ne e in
        pool.same a k e (ap (λ t. t.is_dirty) (sym at) ∙ clear) ∙ ap some (sym at)
  ];
}

filled_content :
    (shard pg : ℕ) (h : PageHandle) (page : Page) (p : Pool)
    → IsPool shard p
    → find pg p.table ≡ some h
    → (a : ℕ) (c : Page) → InShard shard a
    → a ≢ pg
    → content p a ≡ some c
    → content (fill_page h.page_array_id page p) a ≡ some c
filled_content shard pg h page p pool found a c own ne e = step (find a p.table) refl
  where
    step :
        (o : Option PageHandle)
        → find a p.table ≡ o
        → content (fill_page h.page_array_id page p) a ≡ some c
    step none f = content_out (fill_page h.page_array_id page p) a f ∙ sym (content_out p a f) ∙ e
    step (some k) f =
        content_in (fill_page h.page_array_id page p) a k f
        ∙ ap (λ t. some (clean t)) (filled_other shard pg h page p pool found a k ne f)
        ∙ sym (content_in p a k f)
        ∙ e

-- In a shard that holds a store each call that is allowed returns, and the shard behind it holds
-- the store behind the same call.
pub run-Refines :
    (shard : ℕ) (p : Pool) (s : Store) (call : Call)
    → Refines shard p s
    → IsAllowed shard s p call
    → (q : Pool) × (run call p ≡ some q) × Refines shard q (replay call s)
unfolding run replay IsAllowed
run-Refines shard p s (pinned pg) ref (c, stored, own, room, few) =
    let (q, page, done, pin) =
      pin-Pinned shard pg c p ref.pool own (ref.holds pg c own stored) room few in
    (
      q,
      rw (run, done) refl,
      record { pool = pin.pool; holds = λ a d own' e. pin.keeps a d own' (ref.holds a d own' e) },
    )
run-Refines shard p s (unpinned pg) ref (h, found, some_refs, few) =
    let (q, done, r) = unpin-Recounts shard pg p h ref.pool found some_refs few in
    (q, done, record { pool = r.pool; holds = λ a d own e. r.contents a ∙ ref.holds a d own e })
run-Refines shard p s (released pg) ref (h, found, some_refs, few) =
    let (pool, keeps, _) = unpin_and_release-Keeps shard pg p h ref.pool found some_refs few in
    (
      unpin_and_release pg p,
      refl,
      record { pool = pool; holds = λ a d own e. keeps a d own (ref.holds a d own e) },
    )
run-Refines shard p s (deleted pg) ref (h, found) =
    let (pool, gone, others) = delete_page_lem shard pg p h ref.pool found in
    (
      delete_page pg p,
      refl,
      record {
        pool = pool;
        holds = set_store shard pg none p (delete_page pg p) s ref (λ c e. absurd (cc)) others;
      },
    )
run-Refines shard p s (allocated pg) ref (own, absent, room) =
    let (q, done, pool, self, others, _) = allocate_lem shard pg p ref.pool own absent room in
    (
      q,
      done,
      record {
        pool = pool;
        holds =
            set_store shard pg (some (clean (page_init zero_page pg))) p q s ref (λ c e. self ∙ e)
              others;
      },
    )
run-Refines shard p s (written pg page) ref (h, found, _, _) =
    let q = fill_page h.page_array_id page p in
    (
      q,
      rw (run, found) refl,
      record {
        pool = filled-IsPool shard pg h page p ref.pool found;
        holds =
            set_store shard pg (some (clean page)) p q s ref
              (λ c e.
                content_in q pg h found
                ∙ ap (λ t. some (clean t))
                    (set_at_self p.pages h.page_array_id (record page { is_dirty = true }))
                ∙ e)
              (filled_content shard pg h page p ref.pool found);
      },
    )
