-- ===== src/LockManager/Counted.antt =====
-- The counters of the lock beside the threads in each phase.
use aha_adaptive_hotspot_awa.Common.{
  ℕ, ◌+◌, ◌≤◌, ◌<◌, ◌≡◌, refl, if◌then◌else◌, List, [], ◌∷◌, length, arith, word_mod, add32, sub32,
}
use aha_adaptive_hotspot_awa.LockManager.{
  NodeLock, new_node_lock, try_read_enter, read_lock, escalate_lock, read_unlock, write_lock,
  alleviate_lock, write_unlock,
}
use aha_adaptive_hotspot_awa.LockManager.Threads.{
  Phase, outside, Moves, Acts, to_read, to_write, to_escalate, read, try, try_busy, try_got,
  try_lost, write, escalate, alleviate, unlock_read, unlock_write, Reach, start, step, reads,
  read_waits, writes, escalates, write_waits, total, total-Moves, length-Moves, total-bound,
  total-le, rest,
}

-- The counters of a lock against counts of threads: readers, waiting readers, writers, escalated
-- readers, waiting writers.
abbrev pub Counts : NodeLock → ℕ → ℕ → ℕ → ℕ → ℕ → Type 0
Counts l r q w e v =
    (l.read_count ≡ r)
    × (l.read_wait ≡ q)
    × (l.write_wait ≡ v)
    × ((if l.write_active then 1 else 0) ≡ w + e)
    × (w + e ≤ 1)
    × (w ≡ 1 → r ≡ 0)
    × (e ≡ 1 → r ≡ 1)

abbrev pub IsCounted : NodeLock → List Phase → Type 0
IsCounted l ps =
    Counts l (total reads ps) (total read_waits ps) (total writes ps) (total escalates ps)
      (total write_waits ps)

-- What a thread does keeps the counts, as long as they fit their 32 bits.
Acts-Counts :
    {a b : Phase} {l l' : NodeLock} (r q w e v : ℕ)
    → Acts l a b l'
    → r + 1 < word_mod
    → q + 1 < word_mod
    → v + 1 < word_mod
    → e ≤ r
    → Counts l (reads a + r) (read_waits a + q) (writes a + w) (escalates a + e) (write_waits a + v)
    → Counts l'
        (reads b + r)
        (read_waits b + q)
        (writes b + w)
        (escalates b + e)
        (write_waits b + v)
unfolding reads read_waits writes escalates write_waits add32 sub32 try_read_enter read_lock
    escalate_lock read_unlock write_lock alleviate_lock write_unlock
Acts-Counts r q w e v to_read h k m le c = ground arith
Acts-Counts r q w e v to_write h k m le c = ground arith
Acts-Counts r q w e v to_escalate h k m le c = ground arith
Acts-Counts r q w e v (read d) h k m le c = ground arith
Acts-Counts r q w e v try h k m le c = ground arith
Acts-Counts r q w e v try_busy h k m le c = ground arith
Acts-Counts r q w e v try_got h k m le c = ground arith
Acts-Counts r q w e v try_lost h k m le c = ground arith
Acts-Counts r q w e v (write d) h k m le c = ground arith
Acts-Counts r q w e v (escalate d) h k m le c = ground arith
Acts-Counts r q w e v (alleviate d) h k m le c = ground arith
Acts-Counts r q w e v (unlock_read d) h k m le c = ground arith
Acts-Counts r q w e v (unlock_write d) h k m le c = ground arith

reads_one : (p : Phase) → reads p ≤ 1
unfolding reads
reads_one p = ground arith

read_waits_one : (p : Phase) → read_waits p ≤ 1
unfolding read_waits
read_waits_one p = ground arith

write_waits_one : (p : Phase) → write_waits p ≤ 1
unfolding write_waits
write_waits_one p = ground arith

escalates-reads : (p : Phase) → escalates p ≤ reads p
unfolding escalates reads
escalates-reads p = ground arith

pub Acts-IsCounted :
    {l l' : NodeLock} {ps qs : List Phase} {a b : Phase}
    → length ps < word_mod
    → IsCounted l ps
    → Acts l a b l'
    → Moves a b ps qs
    → IsCounted l' qs
Acts-IsCounted few c act m =
    let os = rest m in
    let (lo, up) = length-Moves m in
    let (r, r') = total-Moves reads m in
    let (q, q') = total-Moves read_waits m in
    let (w, w') = total-Moves writes m in
    let (e, e') = total-Moves escalates m in
    let (v, v') = total-Moves write_waits m in
    rw (r', q', w', e', v')
      (Acts-Counts (total reads os) (total read_waits os) (total writes os) (total escalates os)
        (total write_waits os) act (omega (arith, total-bound reads reads_one os))
        (omega (arith, total-bound read_waits read_waits_one os))
        (omega (arith, total-bound write_waits write_waits_one os))
        (total-le escalates reads escalates-reads os) (rw (r, q, w, e, v) at c))

-- Threads that are all outside of a new lock.
pub data AllOutside : List Phase → Type 0 where
  nobody : AllOutside []
  more : {ps : List Phase} → AllOutside ps → AllOutside (outside ∷ ps)

outside_total : (f : Phase → ℕ) → f outside ≡ 0 → {ps : List Phase} → AllOutside ps → total f ps ≡ 0
unfolding total
outside_total f z nobody = refl
outside_total f z (more o) = let rest_zero = outside_total f z o in omega arith

AllOutside-IsCounted : (id : ℕ) {ps : List Phase} → AllOutside ps → IsCounted (new_node_lock id) ps
unfolding reads read_waits writes escalates write_waits
AllOutside-IsCounted id o =
    rw
      (
        outside_total reads refl o,
        outside_total read_waits refl o,
        outside_total writes refl o,
        outside_total escalates refl o,
        outside_total write_waits refl o,
      )
      (ground arith)

pub Reach-IsCounted :
    {id : ℕ} {ps : List Phase} {l : NodeLock} {qs : List Phase}
    → AllOutside ps
    → length ps < word_mod
    → Reach (new_node_lock id) ps l qs
    → (length qs ≡ length ps) × IsCounted l qs
Reach-IsCounted {id} o few start = (refl, AllOutside-IsCounted id o)
Reach-IsCounted o few (step r act m) =
    let (same, c) = Reach-IsCounted o few r in
    let (lo, up) = length-Moves m in (omega arith, Acts-IsCounted (omega arith) c act m)
