-- ===== src/LockManager/Threads.antt =====
-- Threads on the lock of a node, each in a phase of its calls, in any interleaving.
use aha_adaptive_hotspot_awa.Common.{
  ℕ, ◌+◌, ◌≤◌, ◌≡◌, refl, Bool, true, false, if◌then◌else◌, List, [], ◌∷◌, length, arith,
}
use aha_adaptive_hotspot_awa.LockManager.{
  NodeLock, Outcome, done, try_read_enter, stop_waiting, read_lock, escalate_lock, read_unlock,
  write_lock, alleviate_lock, write_unlock, register_read, register_write,
}

-- Where a thread is: `tried` is behind the mutex of `TryReadLock` with its answer, `escalating` holds
-- a read lock and waits for the write lock, `escalated` holds both.
pub data Phase : Type 0 where
  outside : Phase
  want_read : Phase
  tried : Bool → Phase
  reading : Phase
  want_write : Phase
  writing : Phase
  escalating : Phase
  escalated : Phase

-- One thread goes from a phase into another.
pub data Moves (a b : Phase) : List Phase → List Phase → Type 0 where
  first : {ps : List Phase} → Moves a b (a ∷ ps) (b ∷ ps)
  later : {p : Phase} {ps qs : List Phase} → Moves a b ps qs → Moves a b (p ∷ ps) (p ∷ qs)

-- What a thread does next on the lock.
pub data Acts (l : NodeLock) : Phase → Phase → NodeLock → Type 0 where
  to_read : Acts l outside want_read (register_read l)
  to_write : Acts l outside want_write (register_write l)
  to_escalate : Acts l reading escalating (register_write l)
  read : {l' : NodeLock} → read_lock l ≡ done l' → Acts l want_read reading l'
  try : Acts l want_read (tried (try_read_enter l).1) (try_read_enter l).0
  try_busy : Acts l want_read outside (stop_waiting l)
  try_got : Acts l (tried true) reading (stop_waiting l)
  try_lost : Acts l (tried false) outside (stop_waiting l)
  write : {l' : NodeLock} → write_lock l ≡ done l' → Acts l want_write writing l'
  escalate : {l' : NodeLock} → escalate_lock l ≡ done l' → Acts l escalating escalated l'
  alleviate : {l' : NodeLock} → alleviate_lock l ≡ done l' → Acts l escalated reading l'
  unlock_read : {l' : NodeLock} → read_unlock l ≡ done l' → Acts l reading outside l'
  unlock_write : {l' : NodeLock} → write_unlock l ≡ done l' → Acts l writing outside l'

-- The states that threads reach, all of them outside of a new lock at first.
pub data Reach (l : NodeLock) (ps : List Phase) : NodeLock → List Phase → Type 0 where
  start : Reach l ps l ps
  step :
      {l' l'' : NodeLock} {qs rs : List Phase} {a b : Phase}
      → Reach l ps l' qs
      → Acts l' a b l''
      → Moves a b qs rs
      → Reach l ps l'' rs

-- The call that a thread is in.
unfoldable pub call : Phase → NodeLock → Outcome
call outside l = done l
call want_read l = read_lock l
call (tried b) l = done (stop_waiting l)
call reading l = read_unlock l
call want_write l = write_lock l
call writing l = write_unlock l
call escalating l = escalate_lock l
call escalated l = alleviate_lock l

unfoldable pub reads : Phase → ℕ
reads outside = 0
reads want_read = 0
reads (tried b) = if b then 1 else 0
reads reading = 1
reads want_write = 0
reads writing = 0
reads escalating = 1
reads escalated = 1

unfoldable pub read_waits : Phase → ℕ
read_waits outside = 0
read_waits want_read = 1
read_waits (tried b) = 1
read_waits reading = 0
read_waits want_write = 0
read_waits writing = 0
read_waits escalating = 0
read_waits escalated = 0

unfoldable pub writes : Phase → ℕ
writes outside = 0
writes want_read = 0
writes (tried b) = 0
writes reading = 0
writes want_write = 0
writes writing = 1
writes escalating = 0
writes escalated = 0

unfoldable pub escalates : Phase → ℕ
escalates outside = 0
escalates want_read = 0
escalates (tried b) = 0
escalates reading = 0
escalates want_write = 0
escalates writing = 0
escalates escalating = 0
escalates escalated = 1

unfoldable pub write_waits : Phase → ℕ
write_waits outside = 0
write_waits want_read = 0
write_waits (tried b) = 0
write_waits reading = 0
write_waits want_write = 1
write_waits writing = 0
write_waits escalating = 1
write_waits escalated = 0

unfoldable pub asks : Phase → ℕ
asks outside = 0
asks want_read = 0
asks (tried b) = 0
asks reading = 0
asks want_write = 0
asks writing = 0
asks escalating = 1
asks escalated = 0

unfoldable pub total : (Phase → ℕ) → List Phase → ℕ
total f [] = 0
total f (p ∷ ps) = f p + total f ps

-- The threads that stay where they are.
unfoldable pub rest : {a b : Phase} {ps qs : List Phase} → Moves a b ps qs → List Phase
rest (first {ps}) = ps
rest (later {p} m) = p ∷ rest m

pub total-Moves :
    (f : Phase → ℕ) {a b : Phase} {ps qs : List Phase} (m : Moves a b ps qs)
    → (total f ps ≡ f a + total f (rest m)) × (total f qs ≡ f b + total f (rest m))
unfolding total rest
total-Moves f first = (refl, refl)
total-Moves f (later m) = let (before, after) = total-Moves f m in (omega arith, omega arith)

pub length-Moves :
    {a b : Phase} {ps qs : List Phase} (m : Moves a b ps qs)
    → (length ps ≡ length (rest m) + 1) × (length qs ≡ length (rest m) + 1)
unfolding rest
length-Moves first = (omega arith, omega arith)
length-Moves (later m) = let (before, after) = length-Moves m in (omega arith, omega arith)

pub total-bound :
    (f : Phase → ℕ) → ((p : Phase) → f p ≤ 1) → (ps : List Phase) → total f ps ≤ length ps
unfolding total
total-bound f one [] = omega arith
total-bound f one (p ∷ ps) = omega (arith, one p, total-bound f one ps)

-- Where each thread counts in the first no more than in the second, so do all.
pub total-le :
    (f g : Phase → ℕ) → ((p : Phase) → f p ≤ g p) → (ps : List Phase) → total f ps ≤ total g ps
unfolding total
total-le f g le [] = omega arith
total-le f g le (p ∷ ps) = omega (arith, le p, total-le f g le ps)
