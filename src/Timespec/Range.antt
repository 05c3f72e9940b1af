-- ===== src/Timespec/Range.antt =====
-- Sums within C's 64-bit `long`.
use ttex_kernel.Common.{◌-◌, ◌^◌, ◌≡◌, arith, ℤ, pos, negsuc, ◌+ℤ◌, ok}
use ttex_kernel.Timespec.{Timespec, fits_long, timespec_add}
use ttex_kernel.Timespec.Value.{nanos, IsNormal, IsWithin}
use ttex_kernel.Timespec.Bounded.{timespec_add-lem}

fits_long-exact : (a : ℤ) → IsWithin (2 ^ 63 - 1) a → fits_long a ≡ ok a
fits_long-exact (pos n) w = ground (arith, w.up)
fits_long-exact (negsuc n) w = ground (arith, w.down)

-- With the seconds of both arguments within 2 ^ 61 and their nanoseconds within 2 ^ 63 in absolute
-- value, on a machine where the result of an operation that is no 64-bit `long` is a fault:
-- `timespec_add` runs without one, through every round of its loops, and its result stands for the
-- sum of the numbers of nanoseconds and is normal.
pub timespec_add-range :
    (a b : Timespec)
    → IsWithin (2 ^ 61) a.tv_sec
    → IsWithin (2 ^ 63) a.tv_nsec
    → IsWithin (2 ^ 61) b.tv_sec
    → IsWithin (2 ^ 63) b.tv_nsec
    → (r : Timespec) × (timespec_add fits_long a b ≡ ok r)
      × (nanos r ≡ nanos a +ℤ nanos b)
      × IsNormal r
timespec_add-range a b sa na sb nb =
    timespec_add-lem fits_long (2 ^ 63 - 1) fits_long-exact (omega arith) a b (2 ^ 61) (2 ^ 63) sa
      na sb nb (omega arith) (omega arith)
