-- ===== src/OptLock/Threads.antt =====
-- Any number of threads on one version word, in any interleaving of their atomic steps.
use aha_adaptive_hotspot_awa.Common.{ℕ, ◌+◌, ◌%◌, ◌<◌, ◌≡◌, ◌≢◌, sym, ◌∙◌, false, arith, ℕ_discrete}
use mathlib.Core.Logic.{ite, if_pos, if_neg}
use aha_adaptive_hotspot_awa.OptLock.{
  word64, read_lock_or_restart, upgrade_to_write_lock_or_restart, write_unlock,
  write_unlock_obsolete,
}

-- What a thread holds: nothing, a version that it read, or the write lock.
pub data Phase : Type 0 where
  idle : Phase
  reading : ℕ → Phase
  writing : Phase

pub record Shared : Type 0 where
  pub word : ℕ
  pub phase : ℕ → Phase

abbrev pub enter : (ℕ → Phase) → ℕ → Phase → ℕ → Phase
enter f t x u = ite (ℕ_discrete u t) x (f u)

-- The step of a thread and the number of times that it changes the word.
pub data Step (s : Shared) : Shared → ℕ → Type 0 where
  read_lock :
      (t : ℕ)
      → s.phase t ≡ idle
      → (read_lock_or_restart s.word false).1 ≡ false
      → Step s
          (record s { phase = enter s.phase t (reading (read_lock_or_restart s.word false).0) })
          0
  -- The version still stands, so the thread gets the write lock.
  upgrade :
      (t v : ℕ)
      → s.phase t ≡ reading v
      → (upgrade_to_write_lock_or_restart s.word v false).2 ≡ false
      → Step s
          (record {
            word = (upgrade_to_write_lock_or_restart s.word v false).0;
            phase = enter s.phase t writing;
          })
          1
  -- A check or an upgrade that fails, and a read that is done: the thread starts again.
  give_up : (t : ℕ) → s.phase t ≢ writing → Step s (record s { phase = enter s.phase t idle }) 0
  unlock :
      (t : ℕ)
      → s.phase t ≡ writing
      → Step s (record { word = write_unlock s.word; phase = enter s.phase t idle }) 1
  unlock_obsolete :
      (t : ℕ)
      → s.phase t ≡ writing
      → Step s (record { word = write_unlock_obsolete s.word; phase = enter s.phase t idle }) 1

pub data Run (s : Shared) : Shared → ℕ → Type 0 where
  here : {c : ℕ} → c ≡ 0 → Run s s c
  next : {t u : Shared} {c d e : ℕ} → Run s t c → Step t u d → e ≡ c + d → Run s u e

-- A writer holds the lock bit, there is one writer at most, and the versions that threads hold were
-- unlocked and not obsolete.
pub record IsSafe (s : Shared) : Type 0 where
  pub small : s.word < word64
  pub locked : (t : ℕ) → s.phase t ≡ writing → s.word % 4 ≡ 2
  pub one : (t u : ℕ) → s.phase t ≡ writing → s.phase u ≡ writing → t ≡ u
  pub clean : (t v : ℕ) → s.phase t ≡ reading v → v % 4 ≡ 0

-- A thread that ends up in another phase than the one entered was in it before.
was_in : (f : ℕ → Phase) (t u : ℕ) (x y : Phase) → x ≢ y → enter f t x u ≡ y → (u ≢ t) × (f u ≡ y)
was_in f t u x y ne e = elim (ℕ_discrete u t) [
  | yes h ↦ absurd (ne (rw (if_pos _ h) at e))
  | no h ↦ (h, rw (if_neg _ h) at e)
]

idle≢writing : idle ≢ writing
idle≢writing e = cc

idle≢reading : (v : ℕ) → idle ≢ reading v
idle≢reading v e = cc

reading≢writing : (v : ℕ) → reading v ≢ writing
reading≢writing v e = cc

writing≢reading : (v : ℕ) → writing ≢ reading v
writing≢reading v e = cc

-- A version that was read with no restart is the word, unlocked and not obsolete.
read_clean : (word : ℕ) → (read_lock_or_restart word false).1 ≡ false → word % 4 ≡ 0
unfolding read_lock_or_restart
read_clean word h = ground arith

read_word : (word : ℕ) → (read_lock_or_restart word false).0 ≡ word
unfolding read_lock_or_restart
read_word word = ground arith

-- An upgrade that succeeds found its version in the word, and adds 2 to it.
upgrade_found :
    (word v : ℕ)
    → (upgrade_to_write_lock_or_restart word v false).2 ≡ false
    → (word ≡ v) × ((upgrade_to_write_lock_or_restart word v false).0 ≡ (word + 2) % word64)
unfolding upgrade_to_write_lock_or_restart
upgrade_found word v h = (ground arith, ground arith)

unlock_clean :
    (word : ℕ) → word % 4 ≡ 2 → (write_unlock word < word64) × (write_unlock word % 4 ≡ 0)
unfolding write_unlock
unlock_clean word h = omega arith

unlock_obsolete_small : (word : ℕ) → write_unlock_obsolete word < word64
unfolding write_unlock_obsolete
unlock_obsolete_small word = omega arith

no_writer : (s : Shared) → IsSafe s → s.word % 4 ≡ 0 → (t : ℕ) → s.phase t ≢ writing
no_writer s safe h t e = let l = safe.locked t e in absurd (omega arith)

-- Every step keeps the lock safe.
pub Step-IsSafe : {s u : Shared} {c : ℕ} → Step s u c → IsSafe s → IsSafe u
Step-IsSafe {s} (read_lock t free clean) safe = record {
  small = safe.small;
  locked = λ u e. safe.locked u (was_in s.phase t u _ writing (reading≢writing _) e).1;
  one = λ u w e f.
      safe.one u w (was_in s.phase t u _ writing (reading≢writing _) e).1
        (was_in s.phase t w _ writing (reading≢writing _) f).1;
  clean = λ u v e. elim (ℕ_discrete u t) [
    | no h ↦ safe.clean u v (rw (if_neg _ h) at e)
    | yes h ↦
        let same : reading (read_lock_or_restart s.word false).0 ≡ reading v =
          rw (if_pos _ h) at e in
        let value : (read_lock_or_restart s.word false).0 ≡ v = cc in
        omega (arith, read_clean s.word clean, read_word s.word)
  ];
}
Step-IsSafe {s} (upgrade t v held ok) safe =
    let found = upgrade_found s.word v ok in
    let zero_bits = safe.clean t v held in
    let none_writes = no_writer s safe (omega (arith, found.0)) in
    record {
      small = omega (arith, found.1);
      locked = λ u e. omega (arith, found.0, found.1);
      one = λ u w e f. elim (ℕ_discrete u t) [
        | no h ↦ absurd (none_writes u (rw (if_neg _ h) at e))
        | yes h ↦ elim (ℕ_discrete w t) [
          | no k ↦ absurd (none_writes w (rw (if_neg _ k) at f))
          | yes k ↦ h ∙ sym k
        ]
      ];
      clean =
          λ u v e. safe.clean u v (was_in s.phase t u writing (reading v) (writing≢reading v) e).1;
    }
Step-IsSafe {s} (give_up t free) safe = record {
  small = safe.small;
  locked = λ u e. safe.locked u (was_in s.phase t u idle writing idle≢writing e).1;
  one = λ u w e f.
      safe.one u w (was_in s.phase t u idle writing idle≢writing e).1
        (was_in s.phase t w idle writing idle≢writing f).1;
  clean = λ u v e. safe.clean u v (was_in s.phase t u idle (reading v) (idle≢reading v) e).1;
}
Step-IsSafe {s} (unlock t held) safe = record {
  small = (unlock_clean s.word (safe.locked t held)).0;
  locked = λ u e.
      let w = was_in s.phase t u idle writing idle≢writing e in
      absurd (w.0 (safe.one u t w.1 held));
  one = λ u w e f.
      safe.one u w (was_in s.phase t u idle writing idle≢writing e).1
        (was_in s.phase t w idle writing idle≢writing f).1;
  clean = λ u v e. safe.clean u v (was_in s.phase t u idle (reading v) (idle≢reading v) e).1;
}
Step-IsSafe {s} (unlock_obsolete t held) safe = record {
  small = unlock_obsolete_small s.word;
  locked = λ u e.
      let w = was_in s.phase t u idle writing idle≢writing e in
      absurd (w.0 (safe.one u t w.1 held));
  one = λ u w e f.
      safe.one u w (was_in s.phase t u idle writing idle≢writing e).1
        (was_in s.phase t w idle writing idle≢writing f).1;
  clean = λ u v e. safe.clean u v (was_in s.phase t u idle (reading v) (idle≢reading v) e).1;
}

pub Run-IsSafe : {s u : Shared} {c : ℕ} → IsSafe s → Run s u c → IsSafe u
Run-IsSafe safe (here e) = safe
Run-IsSafe safe (next r st e) = Step-IsSafe st (Run-IsSafe safe r)
