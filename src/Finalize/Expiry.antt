-- ===== src/Finalize/Expiry.antt =====
-- internal/portal/finalize/lock_check.go. A time is a number of nanoseconds; `-` stops at 0, which no
-- comparison below can tell from a time before the epoch.
use jamsesh.Prelude.{◌+◌, ◌-◌, ◌<◌, arith, Bool, false, if◌then◌else◌, ltb, true, ℕ, ◌↔◌, ◌≡◌, ◌≤◌}

-- 30 * time.Minute
abbrev pub finalize_lock_ttl : ℕ
finalize_lock_ttl = 1_800_000_000_000

unfoldable pub is_lock_expired : ℕ → ℕ → Bool
is_lock_expired last_activity now =
    if ltb now last_activity then false else ltb finalize_lock_ttl (now - last_activity)

unfoldable pub lock_expires_at : ℕ → ℕ
lock_expires_at last_activity = last_activity + finalize_lock_ttl

-- A lock is expired exactly when its published expiry time lies strictly in the past, and exactly when
-- the staleness predicate of the conditional release (`last_activity_at < now - TTL`) holds of it.
pub is_lock_expired_iff :
    (last_activity now : ℕ)
    → ((is_lock_expired last_activity now ≡ true) ↔ (lock_expires_at last_activity < now))
      × ((is_lock_expired last_activity now ≡ true) ↔ (last_activity < now - finalize_lock_ttl))
unfolding is_lock_expired lock_expires_at
is_lock_expired_iff last_activity now = ground arith

-- Once a lock is expired it stays so at every later time, as long as nobody touches it.
pub is_lock_expired_mono :
    (last_activity now later : ℕ)
    → now ≤ later
    → is_lock_expired last_activity now ≡ true
    → is_lock_expired last_activity later ≡ true
unfolding is_lock_expired
is_lock_expired_mono last_activity now later le h = ground arith
