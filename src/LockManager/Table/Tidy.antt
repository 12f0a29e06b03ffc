-- ===== src/LockManager/Table/Tidy.antt =====
-- `TreeLockManager` of src/wot_lock_mgr/lock_manager.cc: a lock of a page and its unlock in turn.
use aha_adaptive_hotspot_awa.Common.{
  ℕ, ◌≡◌, refl, sym, ◌∙◌, ap, ◌==◌, true, false, Option, none, some, ℕ_discrete, fun_ext, arith,
  add32, sub32,
}
use mathlib.Core.Logic.{if_pos, if_neg}
use aha_adaptive_hotspot_awa.LockManager.{
  NodeLock, done, new_node_lock, read_lock, escalate_lock, read_unlock, write_lock, alleviate_lock,
  write_unlock, in_use, register_read, register_write,
}
use aha_adaptive_hotspot_awa.LockManager.Table.{
  LockTable, returns, put, insert_lock_table, finish, tree_read_lock, tree_read_unlock,
  tree_write_lock, tree_write_unlock, tree_escalate_lock, tree_alleviate_lock, drop_unused,
}

pub put_back : (t : LockTable) (id : ℕ) (l : Option NodeLock) → put t id l id ≡ l
put_back t id l = rw (if_pos _ refl) refl

pub put_twice :
    (t : LockTable) (id : ℕ) (l m : Option NodeLock) → put (put t id l) id m ≡ put t id m
put_twice t id l m = fun_ext (λ x. elim (ℕ_discrete x id) [
  | yes h ↦ rw (if_pos _ h, if_pos _ h) refl
  | no h ↦ rw (if_neg _ h, if_neg _ h, if_neg _ h) refl
])

pub put_same : (t : LockTable) (id : ℕ) (l : Option NodeLock) → t id ≡ l → put t id l ≡ t
put_same t id l e = fun_ext (λ x. elim (ℕ_discrete x id) [
  | yes h ↦ rw (if_pos _ h) (sym (ap t h ∙ e))
  | no h ↦ rw (if_neg _ h) refl
])

pub finish_own :
    (t : LockTable) (id : ℕ) (l l' : NodeLock)
    → l'.node_id ≡ id
    → finish t id l (done l') ≡ returns (put t id (some l')) true
finish_own t id l l' own = let same : (l'.node_id == id) ≡ true = ground arith in rw same refl

-- A call on the lock that was put last.
pub finish-put :
    (t : LockTable) (id : ℕ) (k l l' : NodeLock)
    → l'.node_id ≡ id
    → finish (put t id (some k)) id l (done l') ≡ returns (put t id (some l')) true
finish-put t id k l l' own =
    finish_own (put t id (some k)) id l l' own
    ∙ ap (λ x. returns x true) (put_twice t id (some k) (some l'))

drop_put :
    (t : LockTable) (id : ℕ) (k l : NodeLock)
    → t id ≡ none
    → l.node_id ≡ id
    → in_use l ≡ false
    → drop_unused (put t id (some k)) id l ≡ t
unfolding drop_unused
drop_put t id k l free own idle =
    let same : (l.node_id == id) ≡ true = ground arith in
    rw (same, idle) (put_twice t id (some k) none ∙ put_same t id none free)

read_cycle :
    (t : LockTable) (id : ℕ)
    → t id ≡ none
    → (held up : LockTable) × (tree_read_lock t id ≡ returns held true)
      × (tree_escalate_lock held id ≡ returns up true)
      × (tree_alleviate_lock up id ≡ returns held true)
      × (tree_read_unlock held id ≡ returns t true)
unfolding tree_read_lock tree_escalate_lock tree_alleviate_lock tree_read_unlock drop_unused
    read_lock escalate_lock alleviate_lock read_unlock in_use add32 sub32
read_cycle t id free =
    let l : NodeLock = record {
      node_id = id;
      read_count = 1;
      read_wait = 0;
      write_wait = 0;
      write_active = false;
    } in
    let m : NodeLock = record {
      node_id = id;
      read_count = 1;
      read_wait = 0;
      write_wait = 0;
      write_active = true;
    } in
    let z : NodeLock = record l { read_count = 0 } in
    (
      put t id (some l),
      put t id (some m),
      rw (tree_read_lock, insert_lock_table, free)
          (finish_own t id (register_read (new_node_lock id)) l refl),
      rw (tree_escalate_lock, put_back t id (some l)) (finish-put t id l (register_write l) m refl),
      rw (tree_alleviate_lock, put_back t id (some m)) (finish-put t id m m l refl),
      rw (tree_read_unlock, put_back t id (some l))
          (ap (λ x. returns x true) (drop_put t id l z free refl refl)),
    )

write_cycle :
    (t : LockTable) (id : ℕ)
    → t id ≡ none
    → (held : LockTable) × (tree_write_lock t id ≡ returns held true)
      × (tree_write_unlock held id ≡ returns t true)
unfolding tree_write_lock tree_write_unlock drop_unused write_lock write_unlock in_use add32 sub32
write_cycle t id free =
    let l : NodeLock = record {
      node_id = id;
      read_count = 0;
      read_wait = 0;
      write_wait = 0;
      write_active = true;
    } in
    let z : NodeLock = record l { write_active = false } in
    (
      put t id (some l),
      rw (tree_write_lock, insert_lock_table, free)
          (finish_own t id (register_write (new_node_lock id)) l refl),
      rw (tree_write_unlock, put_back t id (some l))
          (ap (λ x. returns x true) (drop_put t id l z free refl refl)),
    )

-- On a page with no lock in the table: a read lock, its escalation and alleviation, and the unlock
-- all return, the alleviation undoes the escalation, and the unlock restores the table; a write lock
-- returns too, and its unlock restores the table.
pub lock_cycles :
    (t : LockTable) (id : ℕ)
    → t id ≡ none
    → ((held up : LockTable) × (tree_read_lock t id ≡ returns held true)
        × (tree_escalate_lock held id ≡ returns up true)
        × (tree_alleviate_lock up id ≡ returns held true)
        × (tree_read_unlock held id ≡ returns t true))
      × ((written : LockTable) × (tree_write_lock t id ≡ returns written true)
          × (tree_write_unlock written id ≡ returns t true))
lock_cycles t id free = (read_cycle t id free, write_cycle t id free)
