-- ===== src/Practice/Programs.antt =====
-- The programs of Kernel_Practice that time a call and print the times: `main` of ioctl.cpp, which times
-- RET_TIMER, getpid_call.cpp, and the module time_taken.c. The readings of the clocks are arguments;
-- the n-th call of the clock reads the n-th one. What the timed call returns is not used.
use ttex_kernel.Common.{ℕ, zero, suc, List, [], ◌∷◌, if◌then◌else◌, ℤ, pos, ◌-ℤ◌}
use ttex_kernel.Lifecycle.{is_negative}
use ttex_kernel.Timespec.{Timespec}

-- C's `double`: the conversion of a `long`, products and sums.
pub record DoubleApi : Type 1 where
  pub Double : Type 0
  pub of_long : ℤ → Double
  pub times : Double → Double → Double
  pub plus : Double → Double → Double

-- `ktime_t` of linux/ktime.h.
pub record KtimeApi : Type 1 where
  pub Ktime : Type 0
  pub ktime_sub : Ktime → Ktime → Ktime
  pub ktime_to_ns : Ktime → ℤ

-- A loop of so many rounds, each with two readings, from the n-th one on.
unfoldable pub laps : {A B : Type 0} → (ℕ → A) → (A → A → B) → ℕ → ℕ → List B
laps clock lap zero n = []
laps clock lap (suc rounds) n = lap (clock n) (clock (suc n)) ∷ laps clock lap rounds (suc (suc n))

abbrev pub count : ℕ
count = 10000

-- What `main` of ioctl.cpp prints.
pub data Printed (A : Type 0) : Type 0 where
  cannot_open : Printed A
  times_of : List A → Printed A

module _ (api : DoubleApi) where
  open api use {Double, of_long, times, plus}

  -- `(end.tv_sec - start.tv_sec) * 1e9 + (end.tv_nsec - start.tv_nsec)`
  abbrev pub in_double : (start end : Timespec) → Double
  in_double start end =
      plus (times (of_long (end.tv_sec -ℤ start.tv_sec)) (of_long (pos 1000000000)))
        (of_long (end.tv_nsec -ℤ start.tv_nsec))

  -- `main` of ioctl.cpp; `fd` is what `open` returns.
  unfoldable pub ioctl_main : (fd : ℤ) → (ℕ → Timespec) → Printed Double
  ioctl_main fd clock =
      if is_negative fd then cannot_open else times_of (laps clock in_double count 0)

  -- `main` of getpid_call.cpp.
  unfoldable pub getpid_main : (ℕ → Timespec) → List Double
  getpid_main clock = laps clock in_double count 0

-- `ktime_sub_module_init` of time_taken.c: the times that it logs, and what it returns. The difference
-- of two constants between the readings is not used.
unfoldable pub time_taken_init : (api : KtimeApi) → (ℕ → api.Ktime) → List ℤ × ℤ
time_taken_init api ktime_get =
    (laps ktime_get (λ start end. api.ktime_to_ns (api.ktime_sub end start)) 10 0, pos 0)
