-- ===== src/BufferPool/Released.antt =====
-- `UnpinAndRelease` and `Delete` on what a shard holds.
use aha_adaptive_hotspot_awa.Common.{
  ℕ, ◌-◌, ◌<◌, ◌≡◌, ◌≢◌, refl, sym, ap, ◌∙◌, false, ◌==◌, none, some, if◌then◌else◌, word_mod,
  arith, inl, inr, sub32_small, sub32, Bool-cases, fun_ext, subst,
}
use aha_adaptive_hotspot_awa.Dict.{find, put}
use aha_adaptive_hotspot_awa.Dict.Laws.{find-erase_self, erase-put}
use aha_adaptive_hotspot_awa.TreePage.Layout.{Page}
use aha_adaptive_hotspot_awa.TreeFile.{get_page, set_at}
use aha_adaptive_hotspot_awa.BufferPool.{
  Pool, PageHandle, file_offset, evict, unpin_and_release, delete_page,
}
use aha_adaptive_hotspot_awa.BufferPool.Valid.{IsPool, InShard, content, Keeps}
use aha_adaptive_hotspot_awa.BufferPool.Counted.{recounted, recounted-Recounts, off_list}
use aha_adaptive_hotspot_awa.BufferPool.Dropped.{
  evict-IsPool, evict-Keeps, dropped, dropped-IsPool, dropped_other,
}

evict-put :
    (pg r : ℕ) (h : PageHandle) (p : Pool)
    → find pg p.table ≡ some h
    → evict pg h (record p { table = put pg (record h { refs = r }) p.table }) ≡ evict pg h p
unfolding evict
evict-put pg r h p found =
    ap (λ t. record (evict pg h p) { table = t })
      (erase-put pg (record h { refs = r }) h p.table found)

gone_now :
    (shard pg : ℕ) (h : PageHandle) (p : Pool)
    → IsPool shard p
    → find pg p.table ≡ some h
    → find pg (evict pg h p).table ≡ none
unfolding evict
gone_now shard pg h p pool found = find-erase_self pg p.table pool.unique

released_last :
    (pg : ℕ) (h : PageHandle) (p : Pool)
    → find pg p.table ≡ some h
    → sub32 h.refs 1 ≡ 0
    → unpin_and_release pg p ≡ evict pg h p
unfolding unpin_and_release
released_last pg h p found last = rw (unpin_and_release, found, last) (evict-put pg 0 h p found)

released_more :
    (pg : ℕ) (h : PageHandle) (p : Pool)
    → find pg p.table ≡ some h
    → (sub32 h.refs 1 == 0) ≡ false
    → unpin_and_release pg p ≡ recounted p pg h (sub32 h.refs 1) p.lru p.in_use
unfolding unpin_and_release
released_more pg h p found more = rw (unpin_and_release, found, more) refl

-- In a well-formed shard the release of a page with references takes one of them, and writes the page
-- to the file and drops it from the pool with the last one. The shard stays well-formed and holds what
-- it held.
pub unpin_and_release-Keeps :
    (shard pg : ℕ) (p : Pool) (h : PageHandle)
    → IsPool shard p
    → find pg p.table ≡ some h
    → 0 < h.refs
    → h.refs < word_mod
    → IsPool shard (unpin_and_release pg p)
      × Keeps shard p (unpin_and_release pg p)
      × (find pg (unpin_and_release pg p).table
          ≡ (if h.refs == 1 then none else some (record h { refs = h.refs - 1 })))
unpin_and_release-Keeps shard pg p h pool found some_refs small =
    let r = sub32_small h.refs 1 some_refs small in
    elim (Bool-cases (h.refs == 1)) [
      | inl one ↦
          rw (released_last pg h p found (r ∙ ground arith), one)
            (
              evict-IsPool shard pg h p pool found,
              evict-Keeps shard pg h p pool found,
              gone_now shard pg h p pool found,
            )
      | inr more ↦
          let left : (h.refs - 1 == 0) ≡ false = ground arith in
          let rec_ =
            recounted-Recounts shard p pg h (h.refs - 1) p.lru p.in_use pool found
              (off_list shard p pg h pool found (λ z. omega arith) ∙ sym left) (λ a ne. refl) in
          rw (released_more pg h p found (ap (λ x. x == 0) r ∙ left), more, r)
            (rec_.pool, (λ a c own e. rec_.contents a ∙ e), rec_.handle)
    ]

set_at_same : (f : ℕ → Page) (i : ℕ) → set_at f i (f i) ≡ f
unfolding set_at
set_at_same f i = fun_ext (λ j. ground arith)

-- The deletion of a page leaves the shard well-formed and the other pages what they hold.
pub delete_page_lem :
    (shard pg : ℕ) (p : Pool) (h : PageHandle)
    → IsPool shard p
    → find pg p.table ≡ some h
    → IsPool shard (delete_page pg p)
      × (find pg (delete_page pg p).table ≡ none)
      × ((a : ℕ) (c : Page)
          → InShard shard a
          → a ≢ pg
          → content p a ≡ some c
          → content (delete_page pg p) a ≡ some c)
unfolding delete_page
delete_page_lem shard pg p h pool found =
    let q = dropped pg h (p.pages h.page_array_id) p.file p in
    let same : delete_page pg p ≡ q =
      rw (delete_page, found)
        (ap (λ pages. record q { pages = pages }) (sym (set_at_same p.pages h.page_array_id))) in
    let kept : (a : ℕ) (c : Page)
        → InShard shard a
        → a ≢ pg
        → get_page (file_offset 16 a) p.file ≡ some c
        → get_page (file_offset 16 a) p.file ≡ some c =
      λ a c o n e. e in
    subst
      (λ r.
        IsPool shard r
        × (find pg r.table ≡ none)
        × ((a : ℕ) (c : Page)
            → InShard shard a
            → a ≢ pg
            → content p a ≡ some c
            → content r a ≡ some c))
      (sym same)
      (
        dropped-IsPool shard pg h (p.pages h.page_array_id) p.file p pool found refl kept,
        find-erase_self pg p.table pool.unique,
        dropped_other shard pg h (p.pages h.page_array_id) p.file p pool found refl kept,
      )
