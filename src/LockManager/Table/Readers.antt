-- ===== src/LockManager/Table/Readers.antt =====
-- `TreeLockManager` of src/wot_lock_mgr/lock_manager.cc: several readers of one page.
use aha_adaptive_hotspot_awa.Common.{
  ℕ, zero, suc, ◌+◌, ◌-◌, ◌%◌, ◌<◌, ◌≤◌, ◌≡◌, refl, ap, ◌∙◌, ltb, ◌==◌, true, false, Option, none,
  some, ◌>>=◌, arith, add32, sub32, word_mod,
}
use aha_adaptive_hotspot_awa.LockManager.{
  NodeLock, blocked, done, new_node_lock, read_lock, read_unlock, write_lock, in_use, register_read,
  register_write,
}
use aha_adaptive_hotspot_awa.LockManager.Table.{
  LockTable, Managed, waits, fails, returns, put, insert_lock_table, finish, released,
  tree_read_lock, tree_read_unlock, tree_write_lock, drop_unused,
}
use aha_adaptive_hotspot_awa.LockManager.Table.Tidy.{
  put_back, put_same, put_twice, finish_own, finish-put,
}

-- A call that returned with a yes.
unfoldable pub granted : Managed → Option LockTable
granted (waits t) = none
granted fails = none
granted (returns t true) = some t
granted (returns t false) = none

-- A call several times, each of them returning with a yes.
unfoldable pub repeats : (LockTable → Managed) → ℕ → LockTable → Option LockTable
repeats f zero t = some t
repeats f (suc n) t = granted (f t) >>= repeats f n

abbrev readers : ℕ → ℕ → NodeLock
readers id n = record {
  node_id = id;
  read_count = n;
  read_wait = 0;
  write_wait = 0;
  write_active = false;
}

abbrev read_by : LockTable → ℕ → ℕ → LockTable
read_by t id n = put t id (some (readers id n))

read_lock_reader :
    (id n : ℕ)
    → n + 1 < word_mod
    → read_lock (register_read (readers id n)) ≡ done (readers id (n + 1))
unfolding read_lock add32 sub32
read_lock_reader id n small =
    let count : (n + 1) % 4294967296 ≡ n + 1 = omega arith in ap (λ k. done (readers id k)) count

first_reader :
    (t : LockTable) (id : ℕ) → t id ≡ none → tree_read_lock t id ≡ returns (read_by t id 1) true
unfolding tree_read_lock
first_reader t id free =
    rw (tree_read_lock, insert_lock_table, free)
      (ap (finish t id (register_read (new_node_lock id))) (read_lock_reader id 0 (omega arith))
        ∙ finish_own t id (register_read (new_node_lock id)) (readers id 1) refl)

one_more :
    (t : LockTable) (id n : ℕ)
    → n + 1 < word_mod
    → tree_read_lock (read_by t id n) id ≡ returns (read_by t id (n + 1)) true
unfolding tree_read_lock
one_more t id n small =
    rw (tree_read_lock, insert_lock_table, put_back t id (some (readers id n)))
      (ap (finish (read_by t id n) id (register_read (readers id n))) (read_lock_reader id n small)
        ∙ finish-put t id (readers id n) (register_read (readers id n)) (readers id (n + 1)) refl)

read_unlock_reader :
    (id n : ℕ) → n + 1 < word_mod → read_unlock (readers id (n + 1)) ≡ done (readers id n)
unfolding read_unlock sub32
read_unlock_reader id n small =
    let some_reader : ltb 0 (n + 1) ≡ true = ground arith in
    let count : (n + 1 + 4294967296 - 1) % 4294967296 ≡ n = omega arith in
    rw (read_unlock, some_reader) (ap (λ k. done (readers id k)) count)

one_less :
    (t : LockTable) (id n : ℕ)
    → n + 1 < word_mod
    → tree_read_unlock (read_by t id (n + 1)) id
      ≡ returns (drop_unused (read_by t id (n + 1)) id (readers id n)) true
unfolding tree_read_unlock
one_less t id n small =
    rw (tree_read_unlock, put_back t id (some (readers id (n + 1))))
      (ap (released (read_by t id (n + 1)) id) (read_unlock_reader id n small))

-- The lock stays while it has a reader.
dropped_read :
    (t : LockTable) (id n k : ℕ)
    → 0 < n
    → drop_unused (read_by t id k) id (readers id n) ≡ read_by t id n
unfolding drop_unused in_use
dropped_read t id n k some_reader =
    let same : (id == id) ≡ true = ground arith in
    let used : in_use (readers id n) ≡ true = ground arith in
    rw (same, used) (put_twice t id (some (readers id k)) (some (readers id n)))

dropped_last :
    (t : LockTable) (id k : ℕ) → t id ≡ none → drop_unused (read_by t id k) id (readers id 0) ≡ t
unfolding drop_unused in_use
dropped_last t id k free =
    let same : (id == id) ≡ true = ground arith in
    rw same (put_twice t id (some (readers id k)) none ∙ put_same t id none free)

readers_join :
    (t : LockTable) (id n k m : ℕ)
    → m ≡ k + n
    → m < word_mod
    → repeats (λ u. tree_read_lock u id) n (read_by t id k) ≡ some (read_by t id m)
unfolding repeats granted
readers_join t id zero k m e small =
    let same : k ≡ m = omega arith in ap (λ x. some (read_by t id x)) same
readers_join t id (suc n) k m e small =
    rw (repeats, one_more t id k (omega arith)) (readers_join t id n (k + 1) m (omega arith) small)

readers_leave :
    (t : LockTable) (id n k m : ℕ)
    → m ≡ k + n
    → 0 < k
    → m < word_mod
    → repeats (λ u. tree_read_unlock u id) n (read_by t id m) ≡ some (read_by t id k)
unfolding repeats granted
readers_leave t id zero k m e left small =
    let same : m ≡ k = omega arith in ap (λ x. some (read_by t id x)) same
readers_leave t id (suc n) k m e left small =
    let next : m ≡ k + n + 1 = omega arith in
    rw
      (
        next,
        repeats,
        one_less t id (k + n) (omega arith),
        dropped_read t id (k + n) (k + n + 1) (omega arith),
      )
      (readers_leave t id n k (k + n) refl left (omega arith))

first_joins :
    (t : LockTable) (id n : ℕ)
    → t id ≡ none
    → n + 1 < word_mod
    → repeats (λ u. tree_read_lock u id) (suc n) t ≡ some (read_by t id (n + 1))
unfolding repeats granted
first_joins t id n free small =
    rw (repeats, first_reader t id free) (readers_join t id n 1 (n + 1) (omega arith) small)

last_leaves :
    (t : LockTable) (id : ℕ)
    → t id ≡ none
    → repeats (λ u. tree_read_unlock u id) 1 (read_by t id 1) ≡ some t
unfolding repeats granted
last_leaves t id free = rw (repeats, one_less t id 0 (omega arith), dropped_last t id 1 free) refl

all_leave :
    (t : LockTable) (id n : ℕ)
    → t id ≡ none
    → n + 1 < word_mod
    → repeats (λ u. tree_read_unlock u id) (suc n) (read_by t id (n + 1)) ≡ some t
unfolding repeats granted
all_leave t id zero free small = last_leaves t id free
all_leave t id (suc n) free small =
    let next : suc n + 1 ≡ n + 1 + 1 = omega arith in
    rw
      (
        next,
        repeats,
        one_less t id (n + 1) (omega arith),
        dropped_read t id (n + 1) (n + 1 + 1) (omega arith),
      )
      (all_leave t id n free (omega arith))

writer_waits :
    (t : LockTable) (id n : ℕ)
    → 0 < n
    → (l : LockTable) × (tree_write_lock (read_by t id n) id ≡ waits l)
unfolding tree_write_lock write_lock add32
writer_waits t id n some_reader =
    let held : write_lock (register_write (readers id n)) ≡ blocked = ground arith in
    (
      put (read_by t id n) id (some (register_write (readers id n))),
      rw (tree_write_lock, insert_lock_table, put_back t id (some (readers id n)))
          (ap (finish (read_by t id n) id (register_write (readers id n))) held),
    )

-- On a page with no lock in the table, up to 2 ^ 32 - 1 read locks all return, and as many read
-- unlocks return and restore the table. While at least one of the readers is left, a write lock
-- waits.
pub readers_share :
    (t : LockTable) (id n : ℕ)
    → t id ≡ none
    → n + 1 < word_mod
    → (held : LockTable) × (repeats (λ u. tree_read_lock u id) (suc n) t ≡ some held)
      × (repeats (λ u. tree_read_unlock u id) (suc n) held ≡ some t)
      × ((m : ℕ)
          → m ≤ n
          → (u : LockTable) × (repeats (λ v. tree_read_unlock v id) m held ≡ some u)
            × ((l : LockTable) × (tree_write_lock u id ≡ waits l)))
readers_share t id n free small = (
  read_by t id (n + 1),
  first_joins t id n free small,
  all_leave t id n free small,
  λ m few. (
    read_by t id (n - m + 1),
    readers_leave t id m (n - m + 1) (n + 1) (omega arith) (omega arith) small,
    writer_waits t id (n - m + 1) (omega arith),
  ),
)
