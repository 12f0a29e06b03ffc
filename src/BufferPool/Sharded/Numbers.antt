-- ===== src/BufferPool/Sharded/Numbers.antt =====
-- The numbers of new pages, over all shards.
use aha_adaptive_hotspot_awa.Common.{
  ℕ, ◌+◌, ◌%◌, ◌≤◌, ◌<◌, ◌≡◌, ◌≢◌, refl, sym, ap, ◌∙◌, Option, none, some, word_mod, arith,
  ℕ_discrete, Option-cases, inl, inr, subst,
}
use aha_adaptive_hotspot_awa.Dict.{find}
use aha_adaptive_hotspot_awa.TreePage.Layout.{Page, page_init}
use aha_adaptive_hotspot_awa.TreeFile.{set_at, zero_page, clean}
use aha_adaptive_hotspot_awa.TreeFile.Laws.{set_at_self, set_at_other}
use aha_adaptive_hotspot_awa.BufferPool.{Pool, PageHandle}
use aha_adaptive_hotspot_awa.BufferPool.Valid.{IsPool, InShard, content}
use aha_adaptive_hotspot_awa.BufferPool.Pins.{HasRoom}
use aha_adaptive_hotspot_awa.BufferPool.Created.{allocate_lem}
use aha_adaptive_hotspot_awa.BufferPool.Sharded.{ShardedPool, shard_of, with_shard, pool_allocate}

-- Every shard is well-formed, and every page in it has a number that was given out.
pub record IsSharded (m : ShardedPool) : Type 0 where
  pub each : (s : ℕ) → s < 16 → IsPool s (m.shards s)
  pub given :
      (s a : ℕ) (h : PageHandle) → s < 16 → find a (m.shards s).table ≡ some h → a < m.new_id
  pub started : 0 < m.new_id

-- What the pool holds for a page.
unfoldable pub pool_content : ShardedPool → ℕ → Option Page
pool_content m a = content (m.shards (shard_of a)) a

-- A shard replaced by a pool that is well-formed and knows the numbers given out.
replaced_each :
    (m : ShardedPool) (g : ℕ) (q : Pool) (s : ℕ)
    → ((t : ℕ) → t < 16 → IsPool t (m.shards t))
    → IsPool g q
    → s < 16
    → IsPool s (set_at m.shards g q s)
replaced_each m g q s each pool small = elim (ℕ_discrete s g) [
  | yes e ↦
      subst (λ x. IsPool x (set_at m.shards g q x)) (sym e)
        (subst (IsPool g) (sym (set_at_self m.shards g q)) pool)
  | no ne ↦ subst (IsPool s) (sym (set_at_other m.shards g q s ne)) (each s small)
]

new-InShard : (n : ℕ) → 0 < n → n < word_mod → InShard (n % 16) n
new-InShard n h k = (h, k, refl)

fresh_number :
    (m : ShardedPool)
    → IsSharded m
    → (s a : ℕ) → s < 16
    → m.new_id ≤ a
    → find a (m.shards s).table ≡ none
fresh_number m valid s a small above = elim (Option-cases (find a (m.shards s).table)) [
  | inl e ↦ e
  | inr (h, e) ↦ absurd (omega (arith, valid.given s a h small e))
]

replaced_given :
    (m : ShardedPool) (g : ℕ) (q : Pool) (n s a : ℕ) (h : PageHandle)
    → IsSharded m
    → find m.new_id (m.shards g).table ≡ none
    → ((b : ℕ) → b ≢ m.new_id → find b (m.shards g).table ≡ none → find b q.table ≡ none)
    → s < 16
    → find a (set_at m.shards g q s).table ≡ some h
    → a < m.new_id + 1
replaced_given m g q n s a h valid absent gone small e = elim (ℕ_discrete s g) [
  | no ne ↦ omega (
    arith,
    valid.given s a h small (ap (λ p. find a p.table) (sym (set_at_other m.shards g q s ne)) ∙ e),
  )
  | yes i ↦ elim (ℕ_discrete a m.new_id) [
    | yes j ↦ omega arith
    | no ne ↦ elim (Option-cases (find a (m.shards g).table)) [
      | inr (k, f) ↦ omega (arith, valid.given g a k (omega arith) f)
      | inl f ↦
          let at : set_at m.shards g q s ≡ q =
            ap (set_at m.shards g q) i ∙ set_at_self m.shards g q in
          let bad : none ≡ some h = sym (gone a ne f) ∙ ap (λ p. find a p.table) (sym at) ∙ e in
          absurd (cc)
    ]
  ]
]

replaced_content :
    (m : ShardedPool) (g : ℕ) (q : Pool) (n a : ℕ) (c : Page)
    → n < word_mod
    → ((b : ℕ) (d : Page)
        → InShard g b
        → b ≢ n
        → content (m.shards g) b ≡ some d
        → content q b ≡ some d)
    → 0 < a
    → a < n
    → content (m.shards (a % 16)) a ≡ some c
    → content (set_at m.shards g q (a % 16)) a ≡ some c
replaced_content m g q n a c few others some_a below e = elim (ℕ_discrete (a % 16) g) [
  | no ne ↦ ap (λ p. content p a) (set_at_other m.shards g q (a % 16) ne) ∙ e
  | yes i ↦
      ap (λ p. content p a) (ap (set_at m.shards g q) i ∙ set_at_self m.shards g q)
      ∙ others a c (some_a, omega arith, i) (λ j. omega arith)
          (ap (λ s. content (m.shards s) a) (sym i) ∙ e)
]

-- In a well-formed pool that has given out fewer than 2 ^ 32 numbers and whose next shard has room,
-- the allocation returns a number that no page of the pool has. The pool stays well-formed, the new
-- page is empty, and the others hold what they held.
pub pool_allocate_lem :
    (m : ShardedPool)
    → IsSharded m
    → m.new_id < word_mod
    → HasRoom (m.shards (shard_of m.new_id))
    → (m' : ShardedPool) × (pool_allocate m ≡ some (m', m.new_id))
      × IsSharded m'
      × (find m.new_id (m.shards (shard_of m.new_id)).table ≡ none)
      × (pool_content m' m.new_id ≡ some (clean (page_init zero_page m.new_id)))
      × ((a : ℕ) (c : Page)
          → 0 < a
          → a < m.new_id
          → pool_content m a ≡ some c
          → pool_content m' a ≡ some c)
unfolding pool_allocate pool_content
pool_allocate_lem m valid few room =
    let n = m.new_id in
    let g = shard_of n in
    let g_small : g < 16 = omega arith in
    let own : n % word_mod ≡ n = omega arith in
    let absent = fresh_number m valid g n g_small (omega arith) in
    let (q, done, pool, self, others, gone) =
      allocate_lem g n (m.shards g) (valid.each g g_small) (new-InShard n valid.started few) absent
        room in
    let m' : ShardedPool = with_shard (record m { new_id = n + 1 }) n q in
    let at_g = set_at_self m.shards g q in
    (
      m',
      rw (pool_allocate, own, done, own) refl,
      record {
        each = λ s small. replaced_each m g q s valid.each pool small;
        given = λ s a h small e. replaced_given m g q n s a h valid absent gone small e;
        started = omega arith;
      },
      absent,
      ap (λ p. content p n) at_g ∙ self,
      λ a c some_a below e. replaced_content m g q n a c few others some_a below e,
    )
