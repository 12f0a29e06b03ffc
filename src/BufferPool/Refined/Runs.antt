-- ===== src/BufferPool/Refined/Runs.antt =====
-- Calls of clients on a shard, one after the other.
use aha_adaptive_hotspot_awa.Common.{
  ℕ, ◌≤◌, ◌<◌, ◌≡◌, refl, sym, ◌∙◌, none, some, word_mod, arith, subst, has, all_distinct,
}
use mathlib.Core.Option.{some-injective}
use aha_adaptive_hotspot_awa.Dict.{find, dict_keys}
use aha_adaptive_hotspot_awa.TreePage.Layout.{Page}
use aha_adaptive_hotspot_awa.TreeFile.{clean, TreeFile}
use aha_adaptive_hotspot_awa.BufferPool.{Pool, pin, new_pool}
use aha_adaptive_hotspot_awa.BufferPool.Pins.{pin-Pinned}
use aha_adaptive_hotspot_awa.BufferPool.Refined.{
  Call, pinned, run, replay, Store, IsAllowed, Refines, run-Refines,
}

-- Calls one after the other, each allowed where it is made.
pub data Runs (shard : ℕ) (p : Pool) (s : Store) : Pool → Store → Type 0 where
  begin : Runs shard p s p s
  then_call :
      {q r : Pool} {t : Store} (call : Call)
      → Runs shard p s q t
      → IsAllowed shard t q call
      → run call q ≡ some r
      → Runs shard p s r (replay call t)

pub Runs-refine :
    (shard : ℕ) {p : Pool} {s : Store} {q : Pool} {t : Store}
    → Refines shard p s
    → Runs shard p s q t
    → Refines shard q t
Runs-refine shard ref begin = ref
Runs-refine shard ref (then_call {t = u} call r ok done) =
    let (q, done', ref') = run-Refines shard _ u call (Runs-refine shard ref r) ok in
    subst (λ x. Refines shard x (replay call u)) (some-injective _ _ (sym done' ∙ done)) ref'

-- A new shard of a pool holds the empty store.
pub new_pool-Refines :
    (shard max_num : ℕ) (file : TreeFile)
    → max_num < word_mod
    → Refines shard (new_pool max_num 16 file) (λ pg. none)
unfolding has all_distinct dict_keys find
new_pool-Refines shard max_num file small = record {
  pool = record {
    shards = refl;
    small = small;
    unique = refl;
    owned = λ a h e. absurd (cc);
    known = λ a h e. absurd (cc);
    used = λ a h e. absurd (cc);
    apart = λ a b h k e f. absurd (cc);
    spare = λ i on. absurd (cc);
    unused = λ a h e. absurd (cc);
    distinct = refl;
    counted = refl;
    bounded = omega arith;
    idle = λ a on. absurd (cc);
    listed = λ a h e. absurd (cc);
    same = λ a h e. absurd (cc);
  };
  holds = λ pg c own e. absurd (cc);
}

-- From a new shard of at most 2 ^ 32 - 1 pages, behind any calls that were allowed, the shard
-- never has more buffers than pages, and a pin that is allowed reads what the store
-- has, whatever left the pool and came back since it was written.
pub pin_reads_store :
    (shard max_num : ℕ) (file : TreeFile) (q : Pool) (t : Store) (pg : ℕ) (c : Page)
    → max_num < word_mod
    → Runs shard (new_pool max_num 16 file) (λ pg. none) q t
    → IsAllowed shard t q (pinned pg)
    → t pg ≡ some c
    → (q.pages_num ≤ q.max_num)
      × ((r : Pool) × (page : Page) × (pin pg q ≡ some (r, page)) × (clean page ≡ c))
unfolding IsAllowed
pin_reads_store shard max_num file q t pg c small runs (d, stored, own, room, few) has_c =
    let ref = Runs-refine shard (new_pool-Refines shard max_num file small) runs in
    let (r, page, done, pin) =
      pin-Pinned shard pg c q ref.pool own (ref.holds pg c own has_c) room few in
    (ref.pool.bounded, (r, page, done, pin.read))
