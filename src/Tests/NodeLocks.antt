-- ===== src/Tests/NodeLocks.antt =====
-- Threads on the lock of a node, and a table of locks.
use aha_adaptive_hotspot_awa.Common.{
  ℕ, ◌+◌, ◌*◌, ◌≤◌, ◌≡◌, ◌≢◌, refl, arith, true, false, List, [], ◌∷◌, none, some, add32, sub32,
}
use aha_adaptive_hotspot_awa.LockManager.{
  NodeLock, aborted, new_node_lock, register_read, write_lock,
}
use aha_adaptive_hotspot_awa.LockManager.Threads.{
  Phase, outside, writing, want_read, escalating, first, later, Reach, start, step, to_write,
  to_read, write, total, reads, read_waits, writes, escalates, write_waits, call, asks,
}
use aha_adaptive_hotspot_awa.LockManager.Counted.{AllOutside, nobody, more, IsCounted}
use aha_adaptive_hotspot_awa.LockManager.Exclusion.{lock_excludes, call_returns, escalations_stuck}
use aha_adaptive_hotspot_awa.LockManager.Table.{
  LockTable, waits, returns, tree_read_lock, tree_read_unlock, tree_write_lock, tree_write_unlock,
  tree_escalate_lock, tree_alleviate_lock,
}
use aha_adaptive_hotspot_awa.LockManager.Table.Tidy.{lock_cycles}
use aha_adaptive_hotspot_awa.LockManager.Table.Readers.{repeats, readers_share}

abbrev taken : NodeLock
taken = record { node_id = 3; read_count = 0; read_wait = 0; write_wait = 0; write_active = true }

two_outside : AllOutside (outside ∷ outside ∷ [])
two_outside = more (more nobody)

-- The first thread gets the write lock.
one-Reach : Reach (new_node_lock 3) (outside ∷ outside ∷ []) taken (writing ∷ outside ∷ [])
unfolding write_lock add32 sub32
one-Reach = step (step start to_write first) (write refl) first

lock_excludes_example :
    (total writes (writing ∷ outside ∷ []) + total escalates (writing ∷ outside ∷ []) ≤ 1)
    × (total writes (writing ∷ outside ∷ []) * total reads (writing ∷ outside ∷ []) ≡ 0)
    × (total escalates (writing ∷ outside ∷ []) * total reads (writing ∷ outside ∷ []) ≤ 1)
lock_excludes_example =
    lock_excludes 3 (outside ∷ outside ∷ []) (writing ∷ outside ∷ []) taken two_outside
      (omega arith) one-Reach

call_returns_example : call writing taken ≢ aborted
call_returns_example =
    call_returns 3 (outside ∷ outside ∷ []) (writing ∷ outside ∷ []) (outside ∷ outside ∷ []) taken
      writing outside two_outside (omega arith) one-Reach first

-- Two readers wait to escalate and a third thread comes.
abbrev stuck : NodeLock
stuck = record { node_id = 3; read_count = 2; read_wait = 0; write_wait = 2; write_active = false }

abbrev crowd : List Phase
crowd = escalating ∷ escalating ∷ outside ∷ []

abbrev crowd_later : List Phase
crowd_later = escalating ∷ escalating ∷ want_read ∷ []

stuck-IsCounted : IsCounted stuck crowd
unfolding total reads read_waits writes escalates write_waits
stuck-IsCounted =
    (refl, refl, refl, refl, omega arith, λ e. absurd (omega arith), λ e. absurd (omega arith))

escalations_stuck_example :
    (2 ≤ total asks crowd_later) × (total writes crowd_later + total escalates crowd_later ≡ 0)
unfolding total asks
escalations_stuck_example =
    escalations_stuck stuck (register_read stuck) crowd crowd_later stuck-IsCounted (omega arith)
      (omega arith) (step start to_read (later (later first)))

abbrev nothing : LockTable
nothing = λ x. none

lock_cycles_example :
    ((held up : LockTable) × (tree_read_lock nothing 3 ≡ returns held true)
      × (tree_escalate_lock held 3 ≡ returns up true)
      × (tree_alleviate_lock up 3 ≡ returns held true)
      × (tree_read_unlock held 3 ≡ returns nothing true))
    × ((written : LockTable) × (tree_write_lock nothing 3 ≡ returns written true)
        × (tree_write_unlock written 3 ≡ returns nothing true))
lock_cycles_example = lock_cycles nothing 3 refl

readers_share_example :
    (held : LockTable) × (repeats (λ u. tree_read_lock u 3) 3 nothing ≡ some held)
    × (repeats (λ u. tree_read_unlock u 3) 3 held ≡ some nothing)
    × ((m : ℕ)
        → m ≤ 2
        → (u : LockTable) × (repeats (λ v. tree_read_unlock v 3) m held ≡ some u)
          × ((l : LockTable) × (tree_write_lock u 3 ≡ waits l)))
readers_share_example = readers_share nothing 3 2 refl (omega arith)
