-- ===== src/Practice/Interval.antt =====
-- The time between two calls of `returnKernelSubTime`.
use ttex_kernel.Common.{ℕ, ◌-◌, ◌/◌, ◌%◌, ◌<◌, ◌≤◌, ◌≡◌, refl, arith, ℤ, pos, int_laws, scale, ◌+ℤ◌}
use ttex_kernel.Timer.{to_u64, u64_mod, sub64, Clock}
use ttex_kernel.Timespec.{nsec_per_sec, Timespec}
use ttex_kernel.Timespec.Value.{nanos}
use ttex_kernel.Timespec.Order.{IsReading}
use ttex_kernel.Practice.{etx_ioctl, receive_time, return_kernel_sub_time}

-- A number of nanoseconds as seconds and the rest.
abbrev split : ℕ → Timespec
split n = record { tv_sec = pos (n / nsec_per_sec); tv_nsec = pos (n % nsec_per_sec) }

split-nanos : (n : ℕ) → nanos (split n) ≡ pos n
split-nanos n = omega int_laws

split-IsReading : (n : ℕ) → IsReading (split n)
split-IsReading n = record { low = omega arith; high = omega arith }

returned :
    (value : ℤ) (now : Clock) (old : ℕ) (t : Timespec)
    → return_kernel_sub_time value now old t ≡ split (sub64 now.ktime (to_u64 (nanos t)))
unfolding return_kernel_sub_time receive_time etx_ioctl
returned value now old t = refl

elapsed : (a b : ℕ) → a ≤ b → b < u64_mod → sub64 b (to_u64 (pos (sub64 a 0))) ≡ b - a
elapsed a b order range = omega arith

abbrev zero_time : Timespec
zero_time = record { tv_sec = pos 0; tv_nsec = pos 0 }

-- Two calls, the second one with the answer of the first.
abbrev pub interval : (value : ℤ) (first last : Clock) (old : ℕ) → Timespec
interval value first last old =
    return_kernel_sub_time value last old (return_kernel_sub_time value first old zero_time)

-- `returnKernelSubTime` of the zero time and, later, of what it returned, with readings of the
-- clock in order and below 2 ^ 64: the second call gives the time between the readings, as whole
-- seconds and nanoseconds under a second.
pub interval-nanos :
    (value : ℤ) (first last : Clock) (old : ℕ)
    → first.ktime ≤ last.ktime
    → last.ktime < u64_mod
    → (nanos (interval value first last old) ≡ pos (last.ktime - first.ktime))
      × IsReading (interval value first last old)
unfolding ◌+ℤ◌ scale
interval-nanos value first last old order range =
    rw
      (
        returned value first old zero_time,
        returned value last old _,
        split-nanos (sub64 first.ktime 0),
      )
      (rw (elapsed first.ktime last.ktime order range)
        (split-nanos (last.ktime - first.ktime), split-IsReading (last.ktime - first.ktime)))
