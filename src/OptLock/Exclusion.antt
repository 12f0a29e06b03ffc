-- ===== src/OptLock/Exclusion.antt =====
-- The threads of OptLock/Threads: writers, versions and obsolete pages.
use aha_adaptive_hotspot_awa.Common.{ℕ, ◌+◌, ◌*◌, ◌%◌, ◌<◌, ◌≤◌, ◌≡◌, ◌≢◌, refl, ap, ◌∙◌, arith}
use aha_adaptive_hotspot_awa.OptLock.{
  word64, upgrade_to_write_lock_or_restart, write_unlock, write_unlock_obsolete,
}
use aha_adaptive_hotspot_awa.OptLock.Threads.{
  Shared, idle, writing, Step, read_lock, upgrade, give_up, unlock, unlock_obsolete, Run, here,
  next, IsSafe, Run-IsSafe,
}

-- The word of a page in use, before any thread calls.
abbrev pub Fresh : Shared → Type 0
Fresh s = (s.word < word64) × (s.word % 4 ≡ 0) × ((t : ℕ) → s.phase t ≡ idle)

pub Fresh-IsSafe : (s : Shared) → Fresh s → IsSafe s
Fresh-IsSafe s f = record {
  small = f.0;
  locked = λ t e. let i = f.2 t in absurd (cc);
  one = λ t u e k. let i = f.2 t in absurd (cc);
  clean = λ t v e. let i = f.2 t in absurd (cc);
}

-- From a fresh word two threads never hold the write lock of a page at once, in any interleaving of their
-- reads, upgrades, restarts and unlocks.
pub mutual_exclusion :
    (s u : Shared) (c t w : ℕ)
    → Fresh s
    → Run s u c
    → u.phase t ≡ writing
    → u.phase w ≡ writing
    → t ≡ w
mutual_exclusion s u c t w fresh r e f = (Run-IsSafe (Fresh-IsSafe s fresh) r).one t w e f

-- A step moves the word on by 2 or 3 for each change it counts.
moved :
    {s u : Shared} {c : ℕ}
    → Step s u c
    → IsSafe s
    → (d : ℕ) × (u.word ≡ (s.word + d) % word64) × (2 * c ≤ d) × (d ≤ 3 * c)
unfolding upgrade_to_write_lock_or_restart write_unlock write_unlock_obsolete
moved {s} (read_lock t free clean) safe = (0, omega (arith, safe.small), omega arith, omega arith)
moved {s} (upgrade t v held ok) safe = (2, ground arith, omega arith, omega arith)
moved {s} (give_up t free) safe = (0, omega (arith, safe.small), omega arith, omega arith)
moved {s} (unlock t held) safe = (2, refl, omega arith, omega arith)
moved {s} (unlock_obsolete t held) safe = (3, refl, omega arith, omega arith)

Run-moved :
    {s u : Shared} {c : ℕ}
    → IsSafe s
    → Run s u c
    → (d : ℕ) × (u.word ≡ (s.word + d) % word64) × (2 * c ≤ d) × (d ≤ 3 * c)
Run-moved safe (here e) = (0, omega (arith, safe.small), omega arith, omega arith)
Run-moved safe (next r st e) =
    let (d, eq, lo, hi) = Run-moved safe r in
    let (d', eq', lo', hi') = moved st (Run-IsSafe safe r) in
    (d + d', omega arith, omega arith, omega arith)

-- A version that still stands proves that no thread took or released the write lock since it was
-- read, as long as fewer than 2 ^ 62 such changes happened.
pub version_stands :
    (s u : Shared) (c : ℕ)
    → IsSafe s
    → Run s u c
    → c < 4611686018427387904
    → u.word ≡ s.word
    → c ≡ 0
version_stands s u c safe r few same =
    let (d, eq, lo, hi) = Run-moved safe r in let small = safe.small in omega arith

obsolete-Step : {s u : Shared} {c : ℕ} → Step s u c → IsSafe s → s.word % 4 ≡ 1 → u.word ≡ s.word
unfolding upgrade_to_write_lock_or_restart
obsolete-Step {s} (read_lock t free clean) safe h = refl
obsolete-Step {s} (upgrade t v held ok) safe h =
    let z = safe.clean t v held in let e : s.word ≡ v = ground arith in absurd (omega arith)
obsolete-Step {s} (give_up t free) safe h = refl
obsolete-Step {s} (unlock t held) safe h = let l = safe.locked t held in absurd (omega arith)
obsolete-Step {s} (unlock_obsolete t held) safe h =
    let l = safe.locked t held in absurd (omega arith)

obsolete-Run : {s u : Shared} {c : ℕ} → IsSafe s → s.word % 4 ≡ 1 → Run s u c → u.word ≡ s.word
obsolete-Run safe h (here e) = refl
obsolete-Run safe h (next r st e) =
    let same = obsolete-Run safe h r in
    obsolete-Step st (Run-IsSafe safe r) (ap (λ w. w % 4) same ∙ h) ∙ same

-- Once a page is obsolete its word never changes again, and no thread gets its write lock.
pub obsolete_stays :
    (s u : Shared) (c t : ℕ)
    → IsSafe s
    → s.word % 4 ≡ 1
    → Run s u c
    → (u.word ≡ s.word) × (u.phase t ≢ writing)
obsolete_stays s u c t safe h r =
    let same = obsolete-Run safe h r in
    (same, λ e. let l = (Run-IsSafe safe r).locked t e in absurd (omega (arith, same)))
