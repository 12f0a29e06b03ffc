-- ===== src/TreeState/Locks.antt =====
-- The read locks of a scan where no call writes.
use aha_adaptive_hotspot_awa.Common.{
  ℕ, ◌≡◌, refl, sym, ap, ◌∙◌, [], ◌∷◌, ◌++◌, true, false, some, inl, inr, arith, ltb, ◌||◌,
  ℕ_discrete, add32, sub32, Option-cases, subst,
}
use mathlib.Core.Logic.{if_pos, if_neg}
use mathlib.Core.Option.{some-injective}
use aha_adaptive_hotspot_awa.LockManager.{NodeLock, read_lock, register_read, done}
use aha_adaptive_hotspot_awa.LockManager.Table.{
  LockTable, put, returns, insert_lock_table, finish, tree_read_lock,
}
use aha_adaptive_hotspot_awa.LockManager.Table.Tidy.{finish_own}
use aha_adaptive_hotspot_awa.TreeState.{RangeScan, lock_taken, lock_for_scan}

-- A lock with readers only, none of them waiting.
pub record IsQuietLock (id : ℕ) (l : NodeLock) : Type 0 where
  pub own : l.node_id ≡ id
  pub no_writer : l.write_active ≡ false
  pub no_wait : l.write_wait ≡ 0
  pub no_read_wait : l.read_wait ≡ 0

abbrev pub IsQuiet : LockTable → Type 0
IsQuiet t = (x : ℕ) (l : NodeLock) → t x ≡ some l → IsQuietLock x l

quiet_start : (t : LockTable) (id : ℕ) → IsQuiet t → IsQuietLock id (insert_lock_table t id)
quiet_start t id quiet = elim (Option-cases (t id)) [
  | inl h ↦
      rw (insert_lock_table, h)
        (record { own = refl; no_writer = refl; no_wait = refl; no_read_wait = refl })
  | inr (l, h) ↦ rw (insert_lock_table, h) (quiet id l h)
]

-- The lock of another reader.
abbrev read_more : NodeLock → NodeLock
read_more l = record l {
  read_wait = sub32 (add32 l.read_wait 1) 1;
  read_count = add32 l.read_count 1;
}

read_lock_quiet :
    (id : ℕ) (l : NodeLock)
    → IsQuietLock id l
    → (read_lock (register_read l) ≡ done (read_more l)) × IsQuietLock id (read_more l)
unfolding read_lock add32 sub32
read_lock_quiet id l q =
    let one : ltb 0 (add32 l.read_wait 1) ≡ true = ground (arith, q.no_read_wait) in
    let free : (l.write_active || ltb 0 l.write_wait) ≡ false =
      ground (arith, q.no_writer, q.no_wait) in
    (
      rw (read_lock, free, one) refl,
      record {
        own = q.own;
        no_writer = q.no_writer;
        no_wait = q.no_wait;
        no_read_wait = omega (arith, q.no_read_wait);
      },
    )

put-IsQuiet :
    (t : LockTable) (id : ℕ) (m : NodeLock)
    → IsQuiet t
    → IsQuietLock id m
    → IsQuiet (put t id (some m))
put-IsQuiet t id m quiet q x l e = elim (ℕ_discrete x id) [
  | yes h ↦
      let same : some m ≡ some l = sym (if_pos (ℕ_discrete x id) h (some m) (t x)) ∙ e in
      subst (λ y. IsQuietLock y l) (sym h) (subst (IsQuietLock id) (some-injective _ _ same) q)
  | no h ↦ quiet x l (sym (if_neg (ℕ_discrete x id) h (some m) (t x)) ∙ e)
]

-- Where no call writes, a read lock of the scan returns, and no call writes behind it.
pub lock_for_scan-IsQuiet :
    {Q : Type 0} (id : ℕ) (s : RangeScan Q)
    → IsQuiet s.tree.lock_mgr
    → (l : LockTable) × (lock_for_scan id s
        ≡ some (record s {
          locked_nodes = s.locked_nodes ++ id ∷ [];
          tree = record s.tree { lock_mgr = l };
        }))
      × IsQuiet l
unfolding lock_for_scan lock_taken tree_read_lock
lock_for_scan-IsQuiet id s quiet =
    let t = s.tree.lock_mgr in
    let l = insert_lock_table t id in
    let (got, q) = read_lock_quiet id l (quiet_start t id quiet) in
    let taken : tree_read_lock t id ≡ returns (put t id (some (read_more l))) true =
      (ap (finish t id (register_read l)) got
        ∙ finish_own t id (register_read l) (read_more l) q.own) in
    (
      put t id (some (read_more l)),
      rw (lock_for_scan, taken) refl,
      put-IsQuiet t id (read_more l) quiet q,
    )
