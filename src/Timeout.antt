-- ===== src/Timeout.antt =====
-- timeout_storage of include/xynet/detail/timeout_storage.h, and the results by policy of
-- detail/throw_or_return.h.
mod Tests
use xynet.Prelude.{
  ℕ, suc, ◌+◌, ◌-◌, ◌*◌, ◌/◌, ◌%◌, ◌==◌, ◌<◌, ◌≡◌, ◌↔◌, refl, arith, if◌then◌else◌, Bool, true,
  false, ◌&&◌,
}
use xynet.Prelude.{Option, none, some}
use xynet.Prelude.Int.{ℤ, pos, negsuc, pos_part, neg_part}
use xynet.Operation.{ErrorCode, is_error, is_negative, no_error, system_error}
use xynet.Transfer.{is_zero}
use xynet.Socket.{Answer, Outcome, returned, thrown}

pub record Timespec : Type 0 where
  pub tv_sec : ℤ
  pub tv_nsec : ℤ

-- `/` and `%` of C++ by a positive number, which round to zero.
abbrev pub negated : ℕ → ℤ
negated n = if n == 0 then pos 0 else negsuc (n - 1)

abbrev pub quot : ℤ → ℕ → ℤ
quot (pos n) d = pos (n / d)
quot (negsuc n) d = negated (suc n / d)

abbrev pub rem : ℤ → ℕ → ℤ
rem (pos n) d = pos (n % d)
rem (negsuc n) d = negated (suc n % d)

abbrev pub second : ℕ
second = 1000000000

-- The constructor from a duration in nanoseconds.
pub timeout_storage : ℤ → Timespec
timeout_storage count = record { tv_sec = quot count second; tv_nsec = rem count second }

pub get_timespec_ptr : Bool → Timespec → Option Timespec
get_timespec_ptr enable_timeout t = if enable_timeout then some t else none

pub is_zero_timeout : Timespec → Bool
is_zero_timeout t = is_zero t.tv_sec && is_zero t.tv_nsec

-- Each part has the sign of the duration; together they are the duration, with less than a second
-- in the nanoseconds; and the timeout is zero for the duration zero alone.
timeout_storage-quot :
    (count : ℤ)
    → let t = timeout_storage count in
      (pos_part t.tv_sec * second + pos_part t.tv_nsec ≡ pos_part count)
      × (neg_part t.tv_sec * second + neg_part t.tv_nsec ≡ neg_part count)
      × (pos_part t.tv_nsec + neg_part t.tv_nsec < second)
      × (is_zero_timeout t ≡ is_zero count)
unfolding timeout_storage is_zero_timeout
timeout_storage-quot (pos n) = ground arith
timeout_storage-quot (negsuc n) = ground arith

-- `async_throw_or_return` and `sync_throw_or_return`; with the policy that uses an error code, the
-- code is returned, beside the result.
pub async_throw_or_return {ℓ} : {A : Type ℓ} → Bool → ErrorCode → A → Outcome (Option ErrorCode × A)
async_throw_or_return use_error_code errc a =
    if use_error_code
    then returned (some errc, a)
    else if is_error errc
    then thrown (none, a) errc
    else returned (none, a)

pub sync_throw_or_return : Bool → Answer → Outcome (Option ErrorCode)
sync_throw_or_return use_error_code answer =
    let errc = system_error answer.errno in
    if is_negative answer.ret
    then if use_error_code then returned (some errc) else thrown none errc
    else if use_error_code
    then returned (some no_error)
    else returned none
