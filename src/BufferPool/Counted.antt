-- ===== src/BufferPool/Counted.antt =====
-- A handle's references change.
use aha_adaptive_hotspot_awa.Common.{
  ℕ, ◌+◌, ◌-◌, ◌<◌, ◌≡◌, ◌≢◌, refl, sym, ap, ◌∙◌, List, [], ◌∷◌, ◌++◌, length, true, false, ◌==◌,
  some, has, without, has-last, has-without, word_mod, arith, inl, inr, ℕ_discrete, subst,
  add32_small, sub32_small, Bool-cases,
}
use mathlib.Core.Option.{some-injective}
use aha_adaptive_hotspot_awa.Dict.{find, put}
use aha_adaptive_hotspot_awa.Dict.Laws.{
  find-put_self, find-put_other, find-put_found, put-distinct, length-put_old,
}
use aha_adaptive_hotspot_awa.BufferPool.{Pool, PageHandle, add_ref, drop_ref}
use aha_adaptive_hotspot_awa.BufferPool.Valid.{IsPool, content, content_in}

abbrev pub recounted : Pool → ℕ → PageHandle → ℕ → List ℕ → List ℕ → Pool
recounted p pg h r lru in_use = record p {
  table = put pg (record h { refs = r }) p.table;
  lru = lru;
  in_use = in_use;
}

module _ (shard : ℕ) (p : Pool) (pg : ℕ) (h : PageHandle) (r : ℕ) (lru in_use : List ℕ)
    (pool : IsPool shard p) (found : find pg p.table ≡ some h) (on : has pg lru ≡ (r == 0))
    (rest : (a : ℕ) → a ≢ pg → has a lru ≡ has a p.lru) where
  h' : PageHandle
  h' = record h { refs = r }

  here : find pg (put pg (record h { refs = r }) p.table) ≡ some (record h { refs = r })
  here = find-put_self pg (record h { refs = r }) p.table

  there : (a : ℕ) → a ≢ pg → find a (put pg (record h { refs = r }) p.table) ≡ find a p.table
  there a ne = find-put_other pg a (record h { refs = r }) p.table ne

  -- A handle of the new table was there with the same buffer.
  origin :
      (a : ℕ) (k : PageHandle)
      → find a (put pg (record h { refs = r }) p.table) ≡ some k
      → (k' : PageHandle) × (find a p.table ≡ some k') × (k'.page_array_id ≡ k.page_array_id)
  origin a k e = elim (find-put_found pg a (record h { refs = r }) k p.table e) [
    | inl x ↦ (h, ap (λ b. find b p.table) x.0 ∙ found, ap (λ t. t.page_array_id) x.1)
    | inr x ↦ (k, x.1, refl)
  ]

  pub recounted-IsPool : IsPool shard (recounted p pg h r lru in_use)
  recounted-IsPool = record {
    shards = pool.shards;
    small = pool.small;
    unique = put-distinct pg (record h { refs = r }) p.table pool.unique;
    owned = λ a k e. let (k', f, i) = origin a k e in pool.owned a k' f;
    known = λ a k e. let (k', f, i) = origin a k e in pool.known a k' f;
    used = λ a k e. let (k', f, i) = origin a k e in omega (arith, pool.used a k' f);
    apart = λ a b k l e f same.
        let (k', e', i) = origin a k e in
        let (l', f', j) = origin b l f in pool.apart a b k' l' e' f' (i ∙ same ∙ sym j);
    spare = pool.spare;
    unused = λ a k e.
        let (k', f, i) = origin a k e in
        ap (λ b. has b p.recent_evicted) (sym i) ∙ pool.unused a k' f;
    distinct = pool.distinct;
    counted =
        omega (arith, pool.counted, length-put_old pg (record h { refs = r }) h p.table found);
    bounded = pool.bounded;
    idle = λ a e. elim (ℕ_discrete a pg) [
      | yes i ↦
          let zero_refs : r ≡ 0 = let o = subst (λ b. has b lru ≡ true) i e in ground arith in
          (
            record h { refs = r },
            ap (λ b. find b (put pg (record h { refs = r }) p.table)) i ∙ here,
            zero_refs,
          )
      | no ne ↦ let (k, f, z) = pool.idle a (sym (rest a ne) ∙ e) in (k, there a ne ∙ f, z)
    ];
    listed = λ a k e z. elim (find-put_found pg a (record h { refs = r }) k p.table e) [
      | inl x ↦
          let zero_refs : r ≡ 0 = ap (λ t. t.refs) x.1 ∙ z in
          ap (λ b. has b lru) x.0 ∙ on ∙ ground arith
      | inr x ↦ rest a x.0 ∙ pool.listed a k x.1 z
    ];
    same = λ a k e clear.
        let (k', f, i) = origin a k e in
        let buffer = ap p.pages i in
        pool.same a k' f (ap (λ t. t.is_dirty) buffer ∙ clear) ∙ ap some buffer;
  }

  -- The contents are the same, those outside the shard too.
  pub content-recounted : (a : ℕ) → content (recounted p pg h r lru in_use) a ≡ content p a
  unfolding content
  content-recounted a = elim (ℕ_discrete a pg) [
    | yes i ↦
        ap (content (recounted p pg h r lru in_use)) i
        ∙ content_in (recounted p pg h r lru in_use) pg (record h { refs = r }) here
        ∙ sym (content_in p pg h found)
        ∙ ap (content p) (sym i)
    | no ne ↦ rw (content, there a ne) refl
  ]

  pub recounted_here : find pg (recounted p pg h r lru in_use).table ≡ some (record h { refs = r })
  recounted_here = here

-- A page with references is not on the list of those without.
pub off_list :
    (shard : ℕ) (p : Pool) (pg : ℕ) (h : PageHandle)
    → IsPool shard p
    → find pg p.table ≡ some h
    → h.refs ≢ 0
    → has pg p.lru ≡ false
off_list shard p pg h pool found some_refs = elim (Bool-cases (has pg p.lru)) [
  | inr off ↦ off
  | inl on ↦
      let (k, f, z) = pool.idle pg on in
      absurd (some_refs (ap (λ t. t.refs) (some-injective _ _ (sym found ∙ f)) ∙ z))
]

-- What a change of references leaves and brings.
pub record Recounts (shard pg : ℕ) (h : PageHandle) (r : ℕ) (p q : Pool) : Type 0 where
  pub pool : IsPool shard q
  pub contents : (a : ℕ) → content q a ≡ content p a
  pub handle : find pg q.table ≡ some (record h { refs = r })
  pub others : (a : ℕ) → a ≢ pg → find a q.table ≡ find a p.table
  pub buffers : q.pages ≡ p.pages
  pub size : length q.table ≡ length p.table

pub recounted-Recounts :
    (shard : ℕ) (p : Pool) (pg : ℕ) (h : PageHandle) (r : ℕ) (lru in_use : List ℕ)
    → IsPool shard p
    → find pg p.table ≡ some h
    → has pg lru ≡ (r == 0)
    → ((a : ℕ) → a ≢ pg → has a lru ≡ has a p.lru)
    → Recounts shard pg h r p (recounted p pg h r lru in_use)
recounted-Recounts shard p pg h r lru in_use pool found on rest = record {
  pool = recounted-IsPool shard p pg h r lru in_use pool found on rest;
  contents = content-recounted shard p pg h r lru in_use pool found on rest;
  handle = find-put_self pg (record h { refs = r }) p.table;
  others = λ a ne. find-put_other pg a (record h { refs = r }) p.table ne;
  buffers = refl;
  size = length-put_old pg (record h { refs = r }) h p.table found;
}

-- `Ref` takes a page off the list of those without references.
pub add_ref-Recounts :
    (shard : ℕ) (p : Pool) (pg : ℕ) (h : PageHandle)
    → IsPool shard p
    → find pg p.table ≡ some h
    → h.refs + 1 < word_mod
    → Recounts shard pg h (h.refs + 1) p (add_ref pg h p)
unfolding add_ref
add_ref-Recounts shard p pg h pool found small =
    let r = add32_small h.refs 1 small in
    elim (Bool-cases (h.refs == 0)) [
      | inl idle ↦
          rw (add_ref, idle, r)
            (recounted-Recounts shard p pg h (h.refs + 1) (without pg p.lru)
              (without pg p.in_use ++ pg ∷ []) pool found (has-without pg pg p.lru ∙ ground arith)
              (λ a ne. has-without a pg p.lru ∙ ground arith))
      | inr busy ↦
          rw (add_ref, busy, r)
            (recounted-Recounts shard p pg h (h.refs + 1) p.lru p.in_use pool found
              (off_list shard p pg h pool found (λ z. ground arith) ∙ ground arith) (λ a ne. refl))
    ]

-- `Unref` at a page with references passes its assertion, and puts the page on the list at the last.
pub drop_ref-Recounts :
    (shard : ℕ) (p : Pool) (pg : ℕ) (h : PageHandle)
    → IsPool shard p
    → find pg p.table ≡ some h
    → 0 < h.refs
    → h.refs < word_mod
    → (q : Pool) × (drop_ref pg h p ≡ some q) × Recounts shard pg h (h.refs - 1) p q
unfolding drop_ref
drop_ref-Recounts shard p pg h pool found some_refs small =
    let r = sub32_small h.refs 1 some_refs small in
    let busy : (h.refs == 0) ≡ false = ground arith in
    let off = off_list shard p pg h pool found (λ z. omega arith) in
    elim (Bool-cases (h.refs - 1 == 0)) [
      | inl last ↦ (
        recounted p pg h (h.refs - 1) (without pg p.lru ++ pg ∷ []) (without pg p.in_use),
        rw (drop_ref, busy, r, last) refl,
        recounted-Recounts shard p pg h (h.refs - 1) (without pg p.lru ++ pg ∷ [])
            (without pg p.in_use) pool found (has-last pg pg (without pg p.lru) ∙ ground arith)
            (λ a ne. has-last a pg (without pg p.lru) ∙ ground (arith, has-without a pg p.lru)),
      )
      | inr more ↦ (
        recounted p pg h (h.refs - 1) p.lru p.in_use,
        rw (drop_ref, busy, r, more) refl,
        recounted-Recounts shard p pg h (h.refs - 1) p.lru p.in_use pool found (off ∙ sym more)
            (λ a ne. refl),
      )
    ]
