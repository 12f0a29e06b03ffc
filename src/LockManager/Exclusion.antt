-- ===== src/LockManager/Exclusion.antt =====
-- What the lock of a node promises to its threads.
use aha_adaptive_hotspot_awa.Common.{
  ℕ, zero, suc, ◌+◌, ◌*◌, ◌≤◌, ◌<◌, ◌≡◌, ◌≢◌, refl, List, length, arith, word_mod,
}
use aha_adaptive_hotspot_awa.LockManager.{
  NodeLock, aborted, new_node_lock, read_lock, escalate_lock, read_unlock, write_lock,
  alleviate_lock, write_unlock,
}
use aha_adaptive_hotspot_awa.LockManager.Threads.{
  Phase, outside, want_read, tried, reading, want_write, writing, escalating, escalated, Moves,
  Acts, to_read, to_write, to_escalate, read, try, try_busy, try_got, try_lost, write, escalate,
  alleviate, unlock_read, unlock_write, Reach, start, step, reads, read_waits, writes, escalates,
  write_waits, total, total-Moves, length-Moves, call, asks, total-le,
}
use aha_adaptive_hotspot_awa.LockManager.Counted.{
  IsCounted, Counts, AllOutside, Reach-IsCounted, Acts-IsCounted,
}

products :
    (w e r : ℕ)
    → w + e ≤ 1
    → (w ≡ 1 → r ≡ 0)
    → (e ≡ 1 → r ≡ 1)
    → (w + e ≤ 1) × (w * r ≡ 0) × (e * r ≤ 1)
products zero zero r h a b = (h, omega arith, omega arith)
products zero (suc zero) r h a b = (h, omega arith, omega (arith, b refl))
products zero (suc (suc e)) r h a b = absurd (omega arith)
products (suc zero) zero r h a b = (h, omega (arith, a refl), omega arith)
products (suc zero) (suc e) r h a b = absurd (omega arith)
products (suc (suc w)) e r h a b = absurd (omega arith)

-- From a new lock with fewer than 2 ^ 32 threads outside, in any interleaving: at most one thread
-- writes or is escalated, no thread reads beside a writer, and none but itself beside an escalated
-- reader.
pub lock_excludes :
    (id : ℕ) (ps qs : List Phase) (l : NodeLock)
    → AllOutside ps
    → length ps < word_mod
    → Reach (new_node_lock id) ps l qs
    → (total writes qs + total escalates qs ≤ 1)
      × (total writes qs * total reads qs ≡ 0)
      × (total escalates qs * total reads qs ≤ 1)
lock_excludes id ps qs l o few r =
    let (_, (_, _, _, _, one, alone, last)) = Reach-IsCounted o few r in
    products _ _ _ one alone last

call_safe :
    (p : Phase) (l : NodeLock) (r q w e v : ℕ)
    → Counts l (reads p + r) (read_waits p + q) (writes p + w) (escalates p + e) (write_waits p + v)
    → call p l ≢ aborted
unfolding call reads read_waits writes escalates write_waits read_lock escalate_lock read_unlock
    write_lock alleviate_lock write_unlock
call_safe outside l r q w e v c = ground arith
call_safe want_read l r q w e v c = ground arith
call_safe (tried b) l r q w e v c = ground arith
call_safe reading l r q w e v c = ground arith
call_safe want_write l r q w e v c = ground arith
call_safe writing l r q w e v c = ground arith
call_safe escalating l r q w e v c = ground arith
call_safe escalated l r q w e v c = ground arith

-- From a new lock with fewer than 2 ^ 32 threads outside, in any interleaving, no assertion fails
-- in the call that a thread is in.
pub call_returns :
    (id : ℕ) (ps qs rs : List Phase) (l : NodeLock) (p p' : Phase)
    → AllOutside ps
    → length ps < word_mod
    → Reach (new_node_lock id) ps l qs
    → Moves p p' qs rs
    → call p l ≢ aborted
call_returns id ps qs rs l p p' o few r m =
    let c = (Reach-IsCounted o few r).1 in
    let (r, _) = total-Moves reads m in
    let (q, _) = total-Moves read_waits m in
    let (w, _) = total-Moves writes m in
    let (e, _) = total-Moves escalates m in
    let (v, _) = total-Moves write_waits m in call_safe p l _ _ _ _ _ (rw (r, q, w, e, v) at c)

asks-reads : (p : Phase) → asks p ≤ reads p
unfolding asks reads
asks-reads p = ground arith

asks_stay :
    {l l' : NodeLock} {a b : Phase} (k : ℕ)
    → Acts l a b l'
    → 2 ≤ l.read_count
    → 2 ≤ asks a + k
    → 2 ≤ asks b + k
unfolding asks escalate_lock
asks_stay k to_read h g = omega arith
asks_stay k to_write h g = omega arith
asks_stay k to_escalate h g = omega arith
asks_stay k (read d) h g = omega arith
asks_stay k try h g = omega arith
asks_stay k try_busy h g = omega arith
asks_stay k try_got h g = omega arith
asks_stay k try_lost h g = omega arith
asks_stay k (write d) h g = omega arith
asks_stay k (escalate d) h g = ground arith
asks_stay k (alleviate d) h g = omega arith
asks_stay k (unlock_read d) h g = omega arith
asks_stay k (unlock_write d) h g = omega arith

asks_kept :
    {l : NodeLock} {ps : List Phase} {l' : NodeLock} {qs : List Phase}
    → IsCounted l ps
    → length ps < word_mod
    → 2 ≤ total asks ps
    → Reach l ps l' qs
    → (length qs ≡ length ps) × IsCounted l' qs × (2 ≤ total asks qs)
asks_kept c few two start = (refl, c, two)
asks_kept c few two (step {qs = ms} r act m) =
    let (same, c', two') = asks_kept c few two r in
    let (lo, up) = length-Moves m in
    let (k, k') = total-Moves asks m in
    let le = total-le asks reads asks-reads ms in
    (
      omega arith,
      Acts-IsCounted (omega arith) c' act m,
      rw k' (asks_stay _ act (omega (arith, c'.0)) (omega arith)),
    )

-- Once two readers of a lock whose counters are right have both called to escalate, with fewer
-- than 2 ^ 32 threads, at least two wait for ever, and no thread gets the write lock again.
pub escalations_stuck :
    (l l' : NodeLock) (ps qs : List Phase)
    → IsCounted l ps
    → length ps < word_mod
    → 2 ≤ total asks ps
    → Reach l ps l' qs
    → (2 ≤ total asks qs) × (total writes qs + total escalates qs ≡ 0)
escalations_stuck l l' ps qs c few two r =
    let (_, (_, _, _, _, one, alone, last), two') = asks_kept c few two r in
    let le = total-le asks reads asks-reads qs in (two', ground arith)
