-- ===== src/Tests/Locks.antt =====
-- Two threads on the version word of a page, and an obsolete page.
use aha_adaptive_hotspot_awa.Common.{ℕ, ◌≡◌, ◌≢◌, refl, arith, ℕ_discrete}
use aha_adaptive_hotspot_awa.OptLock.{
  write_unlock_obsolete, read_lock_or_restart, upgrade_to_write_lock_or_restart,
}
use aha_adaptive_hotspot_awa.OptLock.Threads.{
  unlock_obsolete, give_up, Run-IsSafe, Shared, idle, reading, writing, enter, read_lock, upgrade,
  Run, here, next,
}
use aha_adaptive_hotspot_awa.OptLock.Exclusion.{
  mutual_exclusion, version_stands, obsolete_stays, Fresh, Fresh-IsSafe,
}

abbrev quiet : Shared
quiet = record { word = 4; phase = λ t. idle }

quiet-Fresh : Fresh quiet
quiet-Fresh = (omega arith, omega arith, λ t. refl)

-- Thread 1 reads, thread 0 reads and gets the write lock.
abbrev both_read : Shared
both_read = record { word = 4; phase = enter (enter quiet.phase 1 (reading 4)) 0 (reading 4) }

abbrev held : Shared
held = record { word = 6; phase = enter both_read.phase 0 writing }

both_read-Run : Run quiet both_read 0
unfolding read_lock_or_restart ℕ_discrete
both_read-Run = next (next (here refl) (read_lock 1 refl refl) refl) (read_lock 0 refl refl) refl

held-Run : Run quiet held 1
unfolding upgrade_to_write_lock_or_restart ℕ_discrete
held-Run = next both_read-Run (upgrade 0 4 refl refl) refl

mutual_exclusion_example : ◌≡◌ {A = ℕ} 0 0
unfolding ℕ_discrete
mutual_exclusion_example = mutual_exclusion quiet held 1 0 0 quiet-Fresh held-Run refl refl

version_stands_example : ◌≡◌ {A = ℕ} 0 0
version_stands_example =
    version_stands quiet both_read 0 (Fresh-IsSafe quiet quiet-Fresh) both_read-Run (omega arith)
      refl

-- The writer has made the page obsolete while thread 1 still holds its version.
abbrev dead : Shared
dead = record { word = 9; phase = enter held.phase 0 idle }

dead-Run : Run quiet dead 2
unfolding write_unlock_obsolete ℕ_discrete
dead-Run = next held-Run (unlock_obsolete 0 refl) refl

reading_ne : dead.phase 1 ≢ writing
unfolding ℕ_discrete
reading_ne e = let f : reading 4 ≡ writing = e in cc

obsolete_stays_example : ◌≡◌ {A = ℕ} 9 9 × (enter dead.phase 1 idle 0 ≢ writing)
obsolete_stays_example =
    obsolete_stays dead (record { word = 9; phase = enter dead.phase 1 idle }) 0 0
      (Run-IsSafe (Fresh-IsSafe quiet quiet-Fresh) dead-Run) refl
      (next (here refl) (give_up 1 reading_ne) refl)
