-- ===== src/LockManager/Table.antt =====
-- `TreeLockManager` of src/wot_lock_mgr/lock_manager.{h,cc}: the table of the locks in use. Each call
-- runs with no other call between its steps; a call that waits leaves its registration behind.
pub mod Tidy
pub mod Readers
use aha_adaptive_hotspot_awa.Common.{
  ℕ, ◌==◌, ◌&&◌, not, Bool, true, false, Option, none, some, if◌then◌else◌, ℕ_discrete,
}
use mathlib.Core.Logic.{ite}
use aha_adaptive_hotspot_awa.LockManager.{
  NodeLock, Outcome, blocked, aborted, done, new_node_lock, try_read_lock, read_lock, escalate_lock,
  read_unlock, write_lock, alleviate_lock, write_unlock, in_use, register_read, register_write,
}

abbrev pub LockTable : Type 0
LockTable = ℕ → Option NodeLock

-- What a call of the manager comes to: it waits behind its registration, an assertion fails, or it
-- returns, with the answer of the calls that have one.
pub data Managed : Type 0 where
  waits : LockTable → Managed
  fails : Managed
  returns : LockTable → Bool → Managed

abbrev pub put : LockTable → ℕ → Option NodeLock → LockTable
put t id l x = ite (ℕ_discrete x id) l (t x)

-- The entry of a page, inserted if there is none.
abbrev pub insert_lock_table : LockTable → ℕ → NodeLock
insert_lock_table t id = elim (t id) [ none ↦ new_node_lock id | some l ↦ l ]

-- Behind a call on the node of a page that was registered as `l`: the node has the page's number.
abbrev pub finish : LockTable → ℕ → NodeLock → Outcome → Managed
finish t id l o = elim o [
  | blocked ↦ waits (put t id (some l))
  | aborted ↦ fails
  | done l' ↦ if l'.node_id == id then returns (put t id (some l')) true else fails
]

unfoldable pub tree_try_read_lock : Bool → LockTable → ℕ → Managed
tree_try_read_lock got t id =
    let l = register_read (insert_lock_table t id) in
    if l.node_id == id
    then returns (put t id (some (try_read_lock got l).0)) (try_read_lock got l).1
    else fails

unfoldable pub tree_read_lock : LockTable → ℕ → Managed
tree_read_lock t id = let l = register_read (insert_lock_table t id) in finish t id l (read_lock l)

unfoldable pub tree_write_lock : LockTable → ℕ → Managed
tree_write_lock t id =
    let l = register_write (insert_lock_table t id) in finish t id l (write_lock l)

unfoldable pub tree_escalate_lock : LockTable → ℕ → Managed
tree_escalate_lock t id = elim (t id) [
  | none ↦ fails
  | some l ↦ finish t id (register_write l) (escalate_lock (register_write l))
]

unfoldable pub tree_alleviate_lock : LockTable → ℕ → Managed
tree_alleviate_lock t id = elim (t id) [ none ↦ fails | some l ↦ finish t id l (alleviate_lock l) ]

-- The end of the unlocks: a lock that nobody uses leaves the table.
unfoldable pub drop_unused : LockTable → ℕ → NodeLock → LockTable
drop_unused t id l = if l.node_id == id && not (in_use l) then put t id none else put t id (some l)

abbrev pub released : LockTable → ℕ → Outcome → Managed
released t id o = elim o [
  | blocked ↦ waits t
  | aborted ↦ fails
  | done l ↦ returns (drop_unused t id l) true
]

unfoldable pub tree_read_unlock : LockTable → ℕ → Managed
tree_read_unlock t id = elim (t id) [
  | none ↦ returns t false
  | some l ↦ released t id (read_unlock l)
]

unfoldable pub tree_write_unlock : LockTable → ℕ → Managed
tree_write_unlock t id = elim (t id) [ none ↦ fails | some l ↦ released t id (write_unlock l) ]
