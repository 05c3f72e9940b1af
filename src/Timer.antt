-- ===== src/Timer.antt =====
-- The kernel's timers, which ttex_kernel_update.c and ttex_kernel.c only call: linux/timer.h and
-- linux/jiffies.h are no part of the repository, so a `struct timer_list` and its functions are a
-- parameter, with what their documentation says of them.
use ttex_kernel.Common.{
  ltb, if◌then◌else◌, ℕ, pos, negsuc, ◌+◌, ◌-◌, ◌%◌, ◌^◌, ◌≡◌, refl, Bool, true, false, ℤ,
}

-- Each function returns the timer that it leaves behind its pointer.
pub record TimerApi : Type 1 where
  pub TimerList : Type 0
  pub expires : TimerList → ℕ
  pub timer_pending : TimerList → Bool
  pub timer_setup : TimerList → TimerList
  pub del_timer : TimerList → TimerList
  pub mod_timer : TimerList → ℕ → TimerList
  pub msecs_to_jiffies : ℕ → ℕ

pub record IsTimerApi (api : TimerApi) : Type 0 where
  pub pending_of_setup : (t : api.TimerList) → api.timer_pending (api.timer_setup t) ≡ false
  pub expires_of_setup : (t : api.TimerList) → api.expires (api.timer_setup t) ≡ api.expires t
  pub pending_of_del : (t : api.TimerList) → api.timer_pending (api.del_timer t) ≡ false
  pub expires_of_del : (t : api.TimerList) → api.expires (api.del_timer t) ≡ api.expires t
  pub pending_of_mod : (t : api.TimerList) (e : ℕ) → api.timer_pending (api.mod_timer t e) ≡ true
  pub expires_of_mod : (t : api.TimerList) (e : ℕ) → api.expires (api.mod_timer t e) ≡ e

-- `unsigned long` has 64 bits, `unsigned int` 32.
abbrev pub u64_mod : ℕ
u64_mod = 2 ^ 64

abbrev pub u32_mod : ℕ
u32_mod = 2 ^ 32

abbrev pub add64 : ℕ → ℕ → ℕ
add64 a b = (a + b) % u64_mod

abbrev pub sub64 : ℕ → ℕ → ℕ
sub64 a b = (a + (u64_mod - b % u64_mod)) % u64_mod

-- The conversion of a `long` to `unsigned long`.
abbrev pub to_u64 : ℤ → ℕ
to_u64 (pos n) = n % u64_mod
to_u64 (negsuc n) = u64_mod - 1 - n % u64_mod

-- The conversion of `unsigned long` to `long`.
abbrev pub to_i64 : ℕ → ℤ
to_i64 n = let m = n % u64_mod in if ltb m (2 ^ 63) then pos m else negsuc (u64_mod - m - 1)

-- What `jiffies` and `ktime_get_ns()` read during one call.
pub record Clock : Type 0 where
  pub jiffies : ℕ
  pub ktime : ℕ

-- The fields of `struct task_struct` that the module reads.
pub record Task : Type 0 where
  pub pid : ℤ
  pub rt_priority : ℕ

-- The destination of a `copy_from_user`: the bytes that it holds after the call, whole or not, and
-- whether the call reported a failure.
pub record Copied (A : Type 0) : Type 0 where
  pub content : A
  pub failed : Bool

-- A timer as its expiry and whether it is queued: the parameter can be met.
abbrev pub plain_timers : TimerApi
plain_timers = record {
  TimerList = ℕ × Bool;
  expires = λ t. t.0;
  timer_pending = λ t. t.1;
  timer_setup = λ t. (t.0, false);
  del_timer = λ t. (t.0, false);
  mod_timer = λ t e. (e, true);
  msecs_to_jiffies = λ n. n;
}

pub plain_timers-IsTimerApi : IsTimerApi plain_timers
plain_timers-IsTimerApi = record {
  pending_of_setup = λ t. refl;
  expires_of_setup = λ t. refl;
  pending_of_del = λ t. refl;
  expires_of_del = λ t. refl;
  pending_of_mod = λ t e. refl;
  expires_of_mod = λ t e. refl;
}
