-- ===== src/Timespec.antt =====
-- The arithmetic on `timespec` of Kernel_Practice/ttex_profiler.h; profiler.h and profiler_update.h
-- repeat it without `timespec_higher` and `timespec_compare`. Overflow of C's signed `long` is
-- undefined. What the machine makes of the result of an operation is therefore an argument: the
-- result itself (`unbounded`), or a fault where it is no `long` (`fits_long`). A loop that comes to
-- the end of its fuel gives no result.
pub mod Value
pub mod Loops
pub mod Bounded
pub mod Normal
pub mod Order
pub mod Range
use ttex_kernel.Common.{
  ℕ, zero, suc, ◌+◌, ◌/◌, Bool, true, false, ◌&&◌, if◌then◌else◌, ℤ, pos, negsuc, pos_part,
  neg_part, ◌+ℤ◌, ◌-ℤ◌, ltb_ℤ, leb_ℤ, eq_ℤ, ◌^◌, ◌-◌, Outcome, ok, fault, out_of_fuel, ◌>>=◌,
}

abbrev pub nsec_per_sec : ℕ
nsec_per_sec = 1000000000

pub record Timespec : Type 0 where
  pub tv_sec : ℤ
  pub tv_nsec : ℤ

-- `-NSEC_PER_SEC`.
abbrev pub minus_nsec : ℤ
minus_nsec = negsuc 999999999

abbrev pub unbounded : ℤ → Outcome ℤ
unbounded a = ok a

-- The values of a 64-bit `long`.
abbrev pub is_long : ℤ → Bool
is_long a = leb_ℤ a (pos (2 ^ 63 - 1)) && leb_ℤ (negsuc (2 ^ 63 - 1)) a

abbrev pub fits_long : ℤ → Outcome ℤ
fits_long a = if is_long a then ok a else fault

module _ (long : ℤ → Outcome ℤ) where
  -- `while(ts.tv_nsec >= NSEC_PER_SEC)`.
  unfoldable pub roll_over : ℕ → Timespec → Outcome Timespec
  roll_over zero ts = out_of_fuel
  roll_over (suc fuel) ts =
      let rest = long (ts.tv_sec +ℤ pos 1) >>= λ sec.
      long (ts.tv_nsec -ℤ pos nsec_per_sec) >>= λ nsec.
      roll_over fuel (record { tv_sec = sec; tv_nsec = nsec }) in
      if leb_ℤ (pos nsec_per_sec) ts.tv_nsec then rest else ok ts

  -- `while(ts.tv_nsec <= -NSEC_PER_SEC)`.
  unfoldable pub roll_under : ℕ → Timespec → Outcome Timespec
  roll_under zero ts = out_of_fuel
  roll_under (suc fuel) ts =
      let rest = long (ts.tv_sec -ℤ pos 1) >>= λ sec.
      long (ts.tv_nsec +ℤ pos nsec_per_sec) >>= λ nsec.
      roll_under fuel (record { tv_sec = sec; tv_nsec = nsec }) in
      if leb_ℤ ts.tv_nsec minus_nsec then rest else ok ts

  -- The branches on the signs.
  unfoldable pub align_signs : Timespec → Outcome Timespec
  align_signs ts =
      if ltb_ℤ ts.tv_nsec (pos 0) && ltb_ℤ (pos 0) ts.tv_sec
      then (long (ts.tv_sec -ℤ pos 1) >>= λ sec. long (pos 0 -ℤ ts.tv_nsec) >>= λ opposite.
          long (pos nsec_per_sec -ℤ opposite) >>= λ nsec.
          ok (record { tv_sec = sec; tv_nsec = nsec }))
      else if ltb_ℤ (pos 0) ts.tv_nsec && ltb_ℤ ts.tv_sec (pos 0)
      then (long (ts.tv_sec +ℤ pos 1) >>= λ sec. long (pos 0 -ℤ ts.tv_nsec) >>= λ opposite.
          long (minus_nsec -ℤ opposite) >>= λ nsec. ok (record { tv_sec = sec; tv_nsec = nsec }))
      else ok ts

  -- Each loop makes one round for every whole second in `tv_nsec`, and its fuel is one more: the
  -- last is for the test that ends it.
  unfoldable pub timespec_normalise : Timespec → Outcome Timespec
  timespec_normalise ts = roll_over (suc (pos_part ts.tv_nsec / nsec_per_sec)) ts >>= λ over.
      roll_under (suc (neg_part over.tv_nsec / nsec_per_sec)) over >>= λ within. align_signs within

  unfoldable pub timespec_higher : Timespec → Timespec → Outcome Timespec
  timespec_higher ts1 ts2 = timespec_normalise ts1 >>= λ a. timespec_normalise ts2 >>= λ b. ok (
      if ltb_ℤ b.tv_sec a.tv_sec
      then a
      else if ltb_ℤ a.tv_sec b.tv_sec
      then b
      else if ltb_ℤ b.tv_nsec a.tv_nsec
      then a
      else b)

  unfoldable pub timespec_compare : Timespec → Timespec → Outcome Bool
  timespec_compare ts1 ts2 = timespec_normalise ts1 >>= λ a. timespec_normalise ts2 >>= λ b.
      ok (if eq_ℤ a.tv_nsec b.tv_nsec && eq_ℤ a.tv_sec b.tv_sec then true else false)

  unfoldable pub timespec_add : Timespec → Timespec → Outcome Timespec
  timespec_add ts1 ts2 = timespec_normalise ts1 >>= λ a. timespec_normalise ts2 >>= λ b.
      long (a.tv_sec +ℤ b.tv_sec) >>= λ sec. long (a.tv_nsec +ℤ b.tv_nsec) >>= λ nsec.
      timespec_normalise (record { tv_sec = sec; tv_nsec = nsec })

  unfoldable pub timespec_sub : Timespec → Timespec → Outcome Timespec
  timespec_sub ts1 ts2 = timespec_normalise ts1 >>= λ a. timespec_normalise ts2 >>= λ b.
      long (a.tv_sec -ℤ b.tv_sec) >>= λ sec. long (a.tv_nsec -ℤ b.tv_nsec) >>= λ nsec.
      timespec_normalise (record { tv_sec = sec; tv_nsec = nsec })

unfoldable pub get_region_elapsed_time : (start stop : Timespec) → Timespec
get_region_elapsed_time start stop =
    if ltb_ℤ (stop.tv_nsec -ℤ start.tv_nsec) (pos 0)
    then record {
      tv_sec = stop.tv_sec -ℤ start.tv_sec -ℤ pos 1;
      tv_nsec = stop.tv_nsec -ℤ start.tv_nsec +ℤ pos 1000000000;
    }
    else record { tv_sec = stop.tv_sec -ℤ start.tv_sec; tv_nsec = stop.tv_nsec -ℤ start.tv_nsec }
