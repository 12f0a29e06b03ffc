-- ===== src/LockManager.antt =====
-- src/wot_lock_mgr/lock_manager.{h,cc}: the shared lock of a node and the table of locks. A method
-- of `NodeLock` holds the node's mutex but while it waits on the condition, so a call is one step
-- from the test that ends its wait to its return; `blocked` is a call that waits.
pub mod Threads
pub mod Counted
pub mod Exclusion
pub mod Table
use aha_adaptive_hotspot_awa.Common.{
  ℕ, Bool, true, false, not, ◌||◌, ltb, ◌==◌, if◌then◌else◌, add32, sub32, ◌≡◌,
}

pub record NodeLock : Type 0 where
  pub node_id : ℕ
  pub read_count : ℕ
  pub read_wait : ℕ
  pub write_wait : ℕ
  pub write_active : Bool

-- The end of a call: it waits, an assertion of it fails, or it returns.
pub data Outcome : Type 0 where
  blocked : Outcome
  aborted : Outcome
  done : NodeLock → Outcome

abbrev pub new_node_lock : ℕ → NodeLock
new_node_lock id = record {
  node_id = id;
  read_count = 0;
  read_wait = 0;
  write_wait = 0;
  write_active = false;
}

-- The part of `TryReadLock` under the mutex, with `!has_write`.
unfoldable pub try_read_enter : NodeLock → NodeLock × Bool
try_read_enter l =
    if l.write_active || ltb 0 l.write_wait
    then (l, false)
    else (record l { read_count = add32 l.read_count 1 }, true)

abbrev pub stop_waiting : NodeLock → NodeLock
stop_waiting l = record l { read_wait = sub32 l.read_wait 1 }

-- The Boolean argument tells whether `Trylock` got the mutex.
unfoldable pub try_read_lock : Bool → NodeLock → NodeLock × Bool
unfolding try_read_enter
try_read_lock false l = (stop_waiting l, false)
try_read_lock true l = (stop_waiting (try_read_enter l).0, (try_read_enter l).1)

unfoldable pub read_lock : NodeLock → Outcome
read_lock l =
    if l.write_active || ltb 0 l.write_wait
    then blocked
    else (if ltb 0 l.read_wait
        then done (record l { read_wait = sub32 l.read_wait 1; read_count = add32 l.read_count 1 })
        else aborted)

unfoldable pub escalate_lock : NodeLock → Outcome
escalate_lock l =
    if ltb 1 l.read_count || l.write_active
    then blocked
    else (if ltb 0 l.write_wait
        then (if l.read_count == 1
            then done (record l { write_wait = sub32 l.write_wait 1; write_active = true })
            else aborted)
        else aborted)

unfoldable pub read_unlock : NodeLock → Outcome
read_unlock l =
    if ltb 0 l.read_count then done (record l { read_count = sub32 l.read_count 1 }) else aborted

unfoldable pub write_lock : NodeLock → Outcome
write_lock l =
    if ltb 0 l.read_count || l.write_active
    then blocked
    else (if ltb 0 l.write_wait
        then done (record l { write_wait = sub32 l.write_wait 1; write_active = true })
        else aborted)

unfoldable pub alleviate_lock : NodeLock → Outcome
alleviate_lock l =
    if l.write_active
    then (if l.read_count == 1 then done (record l { write_active = false }) else aborted)
    else aborted

unfoldable pub write_unlock : NodeLock → Outcome
write_unlock l = if l.write_active then done (record l { write_active = false }) else aborted

unfoldable pub in_use : NodeLock → Bool
in_use l = l.write_active || ltb 0 l.write_wait || ltb 0 l.read_count || ltb 0 l.read_wait

-- What the manager's calls do to the node under its own mutex, before the node's.
abbrev pub register_read : NodeLock → NodeLock
register_read l = record l { read_wait = add32 l.read_wait 1 }

abbrev pub register_write : NodeLock → NodeLock
register_write l = record l { write_wait = add32 l.write_wait 1 }
