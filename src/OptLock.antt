-- ===== src/OptLock.antt =====
-- src/wot_buf_mgr/tree_page.h, `OptLock`: the version word of a page and the optimistic lock on
-- it. Bit 1 of the word is the write lock, bit 0 marks the page as obsolete, and the rest counts.
-- Each call takes the word that it finds; an atomic operation is one step on it.
pub mod Threads
pub mod Exclusion
use aha_adaptive_hotspot_awa.Common.{
  ℕ, ◌+◌, ◌/◌, ◌%◌, Bool, true, false, not, ◌||◌, ◌==◌, if◌then◌else◌,
}

-- 2 ^ 64
abbrev pub word64 : ℕ
word64 = 18446744073709551616

unfoldable pub clear_lock : ℕ
clear_lock = 4

-- `(version & 0b10) == 0b10`
unfoldable pub is_locked : ℕ → Bool
is_locked version = version / 2 % 2 == 1

-- `(version & 1) == 1`
unfoldable pub is_obsolete : ℕ → Bool
is_obsolete version = version % 2 == 1

-- The version that was read, and `needRestart` behind the call.
unfoldable pub read_lock_or_restart : ℕ → Bool → ℕ × Bool
unfolding is_locked is_obsolete
read_lock_or_restart word need =
    if is_locked word || is_obsolete word then (word, true) else (word, need)

-- The word, the version and `needRestart` behind the call. A compare and exchange that fails
-- leaves the word that it found in `version`.
unfoldable pub upgrade_to_write_lock_or_restart : ℕ → ℕ → Bool → ℕ × ℕ × Bool
upgrade_to_write_lock_or_restart word version need =
    if word == version
    then ((version + 2) % word64, (version + 2) % word64, need)
    else (word, word, true)

-- With no other thread between its two steps.
unfoldable pub write_lock_or_restart : ℕ → Bool → ℕ × Bool
unfolding read_lock_or_restart upgrade_to_write_lock_or_restart
write_lock_or_restart word need =
    let (version, restart) = read_lock_or_restart word need in
    let (word', _, restart') = upgrade_to_write_lock_or_restart word version restart in
    if restart then (word, true) else (word', restart')

unfoldable pub write_unlock : ℕ → ℕ
write_unlock word = (word + 2) % word64

unfoldable pub write_unlock_obsolete : ℕ → ℕ
write_unlock_obsolete word = (word + 3) % word64

-- `needRestart` behind the call.
unfoldable pub read_unlock_or_restart : ℕ → ℕ → Bool
read_unlock_or_restart word start_read = not (start_read == word)

unfoldable pub check_or_restart : ℕ → ℕ → Bool
unfolding read_unlock_or_restart
check_or_restart word start_read = read_unlock_or_restart word start_read
