-- ===== src/BufferPool/Overflow.antt =====
-- `MayOverflow`: pages with no reference leave until there is room.
use aha_adaptive_hotspot_awa.Common.{
  ℕ, zero, suc, ◌-◌, ◌≤◌, ◌<◌, ◌≡◌, ◌≢◌, refl, sym, ap, ◌∙◌, List, [], ◌∷◌, length, Bool, true,
  false, ◌==◌, ltb, leb, none, some, has, without, sub32, sub32_small, arith, Bool-cases, inl, inr,
  ◌⊎◌, length-without_head, subst,
}
use mathlib.Core.Option.{some-injective}
use aha_adaptive_hotspot_awa.Dict.{find}
use aha_adaptive_hotspot_awa.BufferPool.{
  Pool, PageHandle, evict, evict_oldest, evict_loop, may_overflow,
}
use aha_adaptive_hotspot_awa.BufferPool.Valid.{IsPool, Keeps}
use aha_adaptive_hotspot_awa.BufferPool.Dropped.{
  evict-IsPool, evict-Keeps, evict_held, evict_gone, evict_num, length-evict,
}

-- What evictions leave of a pool: its contents, and the pages with references in their buffers.
pub record Evicts (shard : ℕ) (p q : Pool) : Type 0 where
  pub pool : IsPool shard q
  pub keeps : Keeps shard p q
  pub limit : q.max_num ≡ p.max_num
  pub num : q.file.page_num ≡ p.file.page_num
  pub gone : (a : ℕ) → find a p.table ≡ none → find a q.table ≡ none
  pub held :
      (a : ℕ) (k : PageHandle)
      → find a p.table ≡ some k
      → k.refs ≢ 0
      → (find a q.table ≡ some k) × (q.pages k.page_array_id ≡ p.pages k.page_array_id)

stays : (shard : ℕ) (p : Pool) → IsPool shard p → Evicts shard p p
stays shard p pool = record {
  pool = pool;
  keeps = λ a c own e. e;
  limit = refl;
  num = refl;
  gone = λ a e. e;
  held = λ a k e ne. (e, refl);
}

then-Evicts : (shard : ℕ) (p q r : Pool) → Evicts shard p q → Evicts shard q r → Evicts shard p r
then-Evicts shard p q r f g = record {
  pool = g.pool;
  keeps = λ a c own e. g.keeps a c own (f.keeps a c own e);
  limit = g.limit ∙ f.limit;
  num = g.num ∙ f.num;
  gone = λ a e. g.gone a (f.gone a e);
  held = λ a k e ne.
      let (there, buffer) = f.held a k e ne in
      let (there', buffer') = g.held a k there ne in (there', buffer' ∙ buffer);
}

Evicts-one :
    (shard old : ℕ) (h : PageHandle) (p : Pool)
    → IsPool shard p
    → find old p.table ≡ some h
    → h.refs ≡ 0
    → Evicts shard p (evict old h p)
unfolding evict
Evicts-one shard old h p pool found idle = record {
  pool = evict-IsPool shard old h p pool found;
  keeps = evict-Keeps shard old h p pool found;
  limit = refl;
  num = evict_num shard old h p pool found;
  gone = evict_gone shard old h p pool found;
  held = λ a k e ne.
      evict_held shard old h p pool found a k
        (λ i. ne (
          ap (λ x. x.refs) (some-injective _ _ (sym e ∙ ap (λ x. find x p.table) i ∙ found))
          ∙ idle))
        e;
}

empty_list : (xs : List ℕ) → length xs ≤ 0 → xs ≡ []
empty_list [] h = refl
empty_list (x ∷ xs) h = absurd (omega arith)

head_has : (x : ℕ) (xs : List ℕ) → has x (x ∷ xs) ≡ true
unfolding has
head_has x xs = ground arith

shorter :
    (old : ℕ) (h : PageHandle) (p : Pool) (rest : List ℕ)
    → p.lru ≡ old ∷ rest
    → length (evict old h p).lru ≤ length rest
unfolding evict
shorter old h p rest front =
    subst (λ xs. length (without old xs) ≤ length rest) (sym front) (length-without_head old rest)

list_cases : (xs : List ℕ) → (xs ≡ []) ⊎ ((x : ℕ) × (rest : List ℕ) × (xs ≡ x ∷ rest))
list_cases [] = inl refl
list_cases (x ∷ rest) = inr (x, rest, refl)

-- The oldest page leaves: it has no reference, so the assertion passes.
oldest_leaves :
    (shard u old : ℕ) (rest : List ℕ) (p : Pool)
    → IsPool shard p
    → u ≡ length p.table
    → p.lru ≡ old ∷ rest
    → (q : Pool) × (evict_oldest old u p ≡ some (q, sub32 u 1))
      × Evicts shard p q
      × (sub32 u 1 ≡ length q.table)
      × (length q.lru ≤ length rest)
      × (1 ≤ u)
unfolding evict_oldest
oldest_leaves shard u old rest p pool counts front =
    let on : has old p.lru ≡ true = ap (has old) front ∙ head_has old rest in
    let (h, found, idle) = pool.idle old on in
    let none_left : (h.refs == 0) ≡ true = ground arith in
    let less = length-evict shard old h p pool found in
    (
      evict old h p,
      rw (evict_oldest, found, none_left) refl,
      Evicts-one shard old h p pool found idle,
      sub32_small u 1 (omega arith) (omega (arith, pool.counted, pool.bounded, pool.small))
          ∙ omega arith,
      shorter old h p rest front,
      omega arith,
    )

-- With a round for each page of the list, the loop ends with room, or had no page to take.
loop-Evicts :
    (shard n u : ℕ) (p : Pool)
    → IsPool shard p
    → u ≡ length p.table
    → length p.lru ≤ n
    → (q : Pool) × (v : ℕ) × (evict_loop n u p ≡ some (q, v))
      × Evicts shard p q
      × (v ≡ length q.table)
      × (v ≤ u)
      × ((v < q.max_num) ⊎ (p.lru ≡ []))
unfolding evict_loop
loop-Evicts shard zero u p pool counts fuel =
    (p, u, refl, stays shard p pool, counts, omega arith, inr (empty_list p.lru fuel))
loop-Evicts shard (suc n) u p pool counts fuel = elim (Bool-cases (ltb u p.max_num)) [
  | inl room ↦ (
    p,
    u,
    rw (evict_loop, room) refl,
    stays shard p pool,
    counts,
    omega arith,
    inl (ground arith),
  )
  | inr full ↦ elim (list_cases p.lru) [
    | inl none_left ↦ (p, u, ground arith, stays shard p pool, counts, omega arith, inr none_left)
    | inr (old, rest, front) ↦
        let (q, step, ev, counts', short, some_u) =
          oldest_leaves shard u old rest p pool counts front in
        let (r, v, run, ev', counts'', fewer, _) =
          loop-Evicts shard n (sub32 u 1) q ev.pool counts' (omega (arith, ap length front)) in
        let one_less : sub32 u 1 ≡ u - 1 =
          sub32_small u 1 some_u (omega (arith, pool.counted, pool.bounded, pool.small)) in
        (
          r,
          v,
          rw (evict_loop, full, front, step) run,
          then-Evicts shard p q r ev ev',
          counts'',
          omega arith,
          inl (omega (arith, pool.counted, pool.bounded, ev'.limit, ev.limit)),
        )
  ]
]

-- In a well-formed shard `MayOverflow` returns and leaves the shard well-formed, with what it held and
-- the pages that have references: it makes room, unless every page of a full pool has references.
pub may_overflow-Evicts :
    (shard : ℕ) (p : Pool)
    → IsPool shard p
    → (q : Pool) × (full : Bool) × (may_overflow p ≡ some (q, full))
      × Evicts shard p q
      × (((full ≡ false) × (length q.table < q.max_num))
          ⊎ ((full ≡ true) × (p.lru ≡ []) × (p.max_num ≤ length p.table)))
unfolding may_overflow
may_overflow-Evicts shard p pool =
    let (q, u, run, ev, counts, fewer, ended) =
      loop-Evicts shard (length p.lru) (length p.table) p pool refl (omega arith) in
    (
      q,
      leb q.max_num u,
      rw run refl,
      ev,
      elim (Bool-cases (leb q.max_num u)) [
        | inr room ↦ inl (room, ground arith)
        | inl full ↦ elim ended [
          | inl r ↦ absurd (ground arith)
          | inr e ↦ inr (full, e, let l = ev.limit in ground arith)
        ]
      ],
    )
