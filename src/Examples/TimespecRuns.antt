-- ===== src/Examples/TimespecRuns.antt =====
-- Times at concrete values.
use ttex_kernel.Common.{
  Bool, ◌≡◌, refl, ◌↔◌, ◌-◌, ◌^◌, true, arith, pos, negsuc, ◌+ℤ◌, ◌-ℤ◌, ok, fault, ◌>>=◌,
}
use ttex_kernel.Timespec.{
  Timespec, unbounded, fits_long, timespec_normalise, timespec_compare, timespec_add, timespec_sub,
  roll_over, roll_under, align_signs,
}
use ttex_kernel.Timespec.Value.{nanos, IsNormal}
use ttex_kernel.Timespec.Normal.{
  timespec_normalise-IsNormal, timespec_compare_iff, timespec_add-nanos, timespec_sub-timespec_add,
}
use ttex_kernel.Timespec.Range.{timespec_add-range}

-- 3 seconds less 2.5 seconds, not yet normal.
abbrev mixed : Timespec
mixed = record { tv_sec = pos 3; tv_nsec = negsuc 2499999999 }

abbrev late : Timespec
late = record { tv_sec = pos 7; tv_nsec = pos 100 }

abbrev early : Timespec
early = record { tv_sec = pos 5; tv_nsec = pos 900 }

normalised :
    timespec_normalise fits_long mixed ≡ ok (record { tv_sec = pos 0; tv_nsec = pos 500000000 })
unfolding timespec_normalise roll_over roll_under align_signs ◌+ℤ◌ ◌-ℤ◌
normalised = refl

-- A second more than the largest `long`.
abbrev largest : Timespec
largest = record { tv_sec = pos (2 ^ 63 - 1); tv_nsec = pos 1000000000 }

overflows : timespec_normalise fits_long largest ≡ fault
unfolding timespec_normalise roll_over ◌+ℤ◌ ◌-ℤ◌
overflows = refl

timespec_normalise-IsNormal_example :
    (r : Timespec) × (timespec_normalise unbounded mixed ≡ ok r)
    × (nanos r ≡ nanos mixed)
    × IsNormal r
timespec_normalise-IsNormal_example = timespec_normalise-IsNormal mixed

timespec_compare_iff_example :
    (x : Bool) × (timespec_compare unbounded mixed late ≡ ok x)
    × ((x ≡ true) ↔ (nanos mixed ≡ nanos late))
timespec_compare_iff_example = timespec_compare_iff mixed late

timespec_add-nanos_example :
    (r : Timespec) × (timespec_add unbounded mixed late ≡ ok r)
    × (nanos r ≡ nanos mixed +ℤ nanos late)
    × IsNormal r
timespec_add-nanos_example = timespec_add-nanos mixed late

timespec_sub-timespec_add_example :
    (timespec_add unbounded mixed late >>= λ s. timespec_sub unbounded s late)
    ≡ timespec_normalise unbounded mixed
timespec_sub-timespec_add_example = timespec_sub-timespec_add mixed late

timespec_add-range_example :
    (r : Timespec) × (timespec_add fits_long mixed late ≡ ok r)
    × (nanos r ≡ nanos mixed +ℤ nanos late)
    × IsNormal r
timespec_add-range_example =
    timespec_add-range mixed late (record { up = omega arith; down = omega arith })
      (record { up = omega arith; down = omega arith })
      (record { up = omega arith; down = omega arith })
      (record { up = omega arith; down = omega arith })
