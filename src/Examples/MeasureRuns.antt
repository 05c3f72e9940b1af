-- ===== src/Examples/MeasureRuns.antt =====
-- The measuring programs with a clock that is read once in a second.
use ttex_kernel.Common.{
  ℕ, suc, ◌+◌, ◌*◌, ◌≤◌, ◌≡◌, refl, List, map, arith, int_laws, ℤ, pos, negsuc, ◌+ℤ◌, ◌-ℤ◌, scale,
}
use ttex_kernel.Timespec.{Timespec}
use ttex_kernel.Practice.Programs.{DoubleApi, count, times_of, ioctl_main, getpid_main}
use ttex_kernel.Practice.Measured.{IsDoubleApi, gaps, total, stores_time}

abbrev multiply : ℤ → ℤ → ℤ
multiply a (pos n) = scale n a
multiply a (negsuc n) = pos 0 -ℤ scale (suc n) a

abbrev integers : DoubleApi
integers = record { Double = ℤ; of_long = λ a. a; times = multiply; plus = λ a b. a +ℤ b }

integers-IsDoubleApi : IsDoubleApi integers
integers-IsDoubleApi = record { times_exact = λ a n _ _ _. refl; plus_exact = λ a b _ _ _. refl }

abbrev seconds : ℕ → Timespec
seconds n = record { tv_sec = pos n; tv_nsec = pos 0 }

abbrev ns : ℕ → ℕ
ns n = 1000000000 * n

stores_time_example :
    (xs : List ℕ) × (ioctl_main integers (pos 3) seconds ≡ times_of (map (λ x. pos x) xs))
    × (getpid_main integers seconds ≡ map (λ x. pos x) xs)
    × (xs ≡ gaps ns count 0)
    × (total xs + ns 0 ≤ ns 19999)
stores_time_example =
    stores_time integers integers-IsDoubleApi 3 seconds ns (λ n. omega int_laws)
      (λ n. record { low = omega arith; high = omega arith }) (λ n. omega arith) (λ n. omega arith)
