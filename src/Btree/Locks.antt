-- ===== src/Btree/Locks.antt =====
-- The locks of the pages on the stack of the way down, and no others.
use aha_adaptive_hotspot_awa.Common.{
  ℕ, ◌≡◌, refl, sym, ap, ◌∙◌, List, [], ◌∷◌, true, false, none, some, has, all_distinct, has-last,
  ◌++◌, ◌==◌, if◌then◌else◌, ℕ_discrete, arith, add32, sub32,
}
use mathlib.Core.Logic.{if_pos, if_neg}
use aha_adaptive_hotspot_awa.LockManager.{
  NodeLock, new_node_lock, write_lock, write_unlock, in_use, register_write,
}
use aha_adaptive_hotspot_awa.LockManager.Table.{
  LockTable, waits, returns, put, insert_lock_table, tree_write_lock, tree_write_unlock,
  drop_unused,
}
use aha_adaptive_hotspot_awa.LockManager.Table.Tidy.{finish_own}
use aha_adaptive_hotspot_awa.Btree.{
  returned, waiting, Btree, lock_node, unlock_node, unlock_parents,
}

-- A lock with its writer and nobody else.
abbrev pub held : ℕ → NodeLock
held pg = record {
  node_id = pg;
  read_count = 0;
  read_wait = 0;
  write_wait = 0;
  write_active = true;
}

-- The table has the locks of these pages, each written, and no others.
abbrev pub IsHeldBy : LockTable → List ℕ → Type 0
IsHeldBy l stack = (x : ℕ) → l x ≡ (if has x stack then some (held x) else none)

write_lock_free :
    (l : LockTable) (pg : ℕ)
    → l pg ≡ none
    → tree_write_lock l pg ≡ returns (put l pg (some (held pg))) true
unfolding tree_write_lock write_lock add32 sub32
write_lock_free l pg free =
    rw (tree_write_lock, insert_lock_table, free)
      (finish_own l pg (register_write (new_node_lock pg)) (held pg) refl)

write_unlock_held :
    (l : LockTable) (pg : ℕ)
    → l pg ≡ some (held pg)
    → tree_write_unlock l pg ≡ returns (put l pg none) true
unfolding tree_write_unlock write_unlock drop_unused in_use
write_unlock_held l pg own =
    let same : (pg == pg) ≡ true = ground arith in rw (tree_write_unlock, own, same) refl

locked-IsHeldBy :
    (l : LockTable) (pg : ℕ) (stack : List ℕ)
    → IsHeldBy l stack
    → IsHeldBy (put l pg (some (held pg))) (pg ∷ stack)
unfolding has
locked-IsHeldBy l pg stack by x = elim (ℕ_discrete x pg) [
  | yes h ↦
      let same : (pg == x) ≡ true = ground arith in
      rw (if_pos _ h, same) (ap (λ y. some (held y)) (sym h))
  | no h ↦ let other : (pg == x) ≡ false = ground (arith, h) in rw (if_neg _ h, other) (by x)
]

unlocked-IsHeldBy :
    (l : LockTable) (pg : ℕ) (stack : List ℕ)
    → IsHeldBy l (pg ∷ stack)
    → has pg stack ≡ false
    → IsHeldBy (put l pg none) stack
unfolding has
unlocked-IsHeldBy l pg stack by once x = elim (ℕ_discrete x pg) [
  | yes h ↦
      let gone : has x stack ≡ false = ap (λ y. has y stack) h ∙ once in rw (if_pos _ h, gone) refl
  | no h ↦
      let other : (pg == x) ≡ false = ground (arith, h) in
      rw (if_neg _ h) (by x ∙ rw (has, other) refl)
]

-- The lock of a page that nobody has is taken.
pub lock_node_lem :
    (t : Btree) (pg : ℕ) (stack : List ℕ)
    → IsHeldBy t.lock_mgr stack
    → has pg stack ≡ false
    → (l : LockTable) × (lock_node pg t ≡ returned (record t { lock_mgr = l }))
      × IsHeldBy l (pg ∷ stack)
lock_node_lem t pg stack by absent =
    let free : t.lock_mgr pg ≡ none = rw (by pg, absent) refl in
    (
      put t.lock_mgr pg (some (held pg)),
      rw (write_lock_free t.lock_mgr pg free) refl,
      locked-IsHeldBy t.lock_mgr pg stack by,
    )

-- The lock of a page on top of the stack is given up.
pub unlock_node_lem :
    (t : Btree) (pg : ℕ) (stack : List ℕ)
    → IsHeldBy t.lock_mgr (pg ∷ stack)
    → has pg stack ≡ false
    → (l : LockTable) × (unlock_node pg t ≡ returned (record t { lock_mgr = l })) × IsHeldBy l stack
unfolding has
unlock_node_lem t pg stack by once =
    let same : (pg == pg) ≡ true = ground arith in
    let own : t.lock_mgr pg ≡ some (held pg) = rw (by pg, has, same) refl in
    (
      put t.lock_mgr pg none,
      rw (write_unlock_held t.lock_mgr pg own) refl,
      unlocked-IsHeldBy t.lock_mgr pg stack by once,
    )

-- The stack's pages are unlocked, and the others stay locked.
pub unlock_parents_lem :
    (stack keep : List ℕ) (t : Btree)
    → IsHeldBy t.lock_mgr (stack ++ keep)
    → all_distinct (stack ++ keep) ≡ true
    → (l : LockTable) × (unlock_parents stack t ≡ returned (record t { lock_mgr = l }))
      × IsHeldBy l keep
unfolding unlock_parents all_distinct has
unlock_parents_lem [] keep t by distinct = (t.lock_mgr, refl, by)
unlock_parents_lem (pg ∷ stack) keep t by distinct =
    let once : has pg (stack ++ keep) ≡ false = ground arith in
    let same : (pg == pg) ≡ true = ground arith in
    let own : t.lock_mgr pg ≡ some (held pg) = rw (by pg, has, same) refl in
    let (l, done, by') =
      unlock_parents_lem stack keep (record t { lock_mgr = put t.lock_mgr pg none })
        (unlocked-IsHeldBy t.lock_mgr pg (stack ++ keep) by once) (ground arith) in
    (l, rw (unlock_parents, write_unlock_held t.lock_mgr pg own) done, by')

-- The order of the pages does not matter.
pub IsHeldBy-last :
    (l : LockTable) (pg : ℕ) (stack : List ℕ)
    → IsHeldBy l (pg ∷ stack)
    → IsHeldBy l (stack ++ pg ∷ [])
unfolding has
IsHeldBy-last l pg stack by x =
    let same : has x (pg ∷ stack) ≡ has x (stack ++ pg ∷ []) =
      ground (arith, has-last x pg stack) in
    by x ∙ ap (λ b. if b then some (held x) else none) same

-- A lock that has a writer is waited for.
pub lock_node_held :
    (t : Btree) (pg : ℕ) → t.lock_mgr pg ≡ some (held pg) → lock_node pg t ≡ waiting
unfolding tree_write_lock write_lock add32
lock_node_held t pg own = rw (tree_write_lock, insert_lock_table, own) refl

pub write_lock_held :
    (l : LockTable) (pg : ℕ)
    → l pg ≡ some (held pg)
    → (l' : LockTable) × (tree_write_lock l pg ≡ waits l')
unfolding tree_write_lock write_lock add32
write_lock_held l pg own =
    (put l pg (some (register_write (held pg))), rw (tree_write_lock, insert_lock_table, own) refl)
