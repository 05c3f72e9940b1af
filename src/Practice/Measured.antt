-- ===== src/Practice/Measured.antt =====
-- The times that the programs print, for clocks that do not run backwards.
use ttex_kernel.Common.{
  ℕ, zero, suc, ◌+◌, ◌-◌, ◌*◌, ◌^◌, ◌≤◌, ◌≡◌, refl, List, [], ◌∷◌, map, arith, int_laws, ℤ, pos,
  negsuc, ◌+ℤ◌, ◌-ℤ◌, scale, pos_part, neg_part, ap, subst, ◌∙◌,
}
use ttex_kernel.Timespec.{Timespec}
use ttex_kernel.Timespec.Value.{nanos}
use ttex_kernel.Timespec.Order.{IsReading}
use ttex_kernel.Practice.Programs.{
  DoubleApi, KtimeApi, laps, count, times_of, in_double, ioctl_main, getpid_main, time_taken_init,
}

-- An integer that a `double` holds exactly.
abbrev pub IsExact : ℤ → Type 0
IsExact a = (pos_part a ≤ 2 ^ 53) × (neg_part a ≤ 2 ^ 53)

-- Products and sums of integers are exact where they fit.
pub record IsDoubleApi (api : DoubleApi) : Type 0 where
  pub times_exact :
      (a : ℤ) (n : ℕ)
      → IsExact a
      → IsExact (pos n)
      → IsExact (scale n a)
      → api.times (api.of_long a) (api.of_long (pos n)) ≡ api.of_long (scale n a)
  pub plus_exact :
      (a b : ℤ)
      → IsExact a
      → IsExact b
      → IsExact (a +ℤ b)
      → api.plus (api.of_long a) (api.of_long b) ≡ api.of_long (a +ℤ b)

-- The time between two readings, `ns` of each in nanoseconds.
abbrev pub gaps : (ℕ → ℕ) → ℕ → ℕ → List ℕ
gaps ns zero n = []
gaps ns (suc rounds) n = (ns (suc n) - ns n) ∷ gaps ns rounds (suc (suc n))

abbrev pub total : List ℕ → ℕ
total [] = 0
total (x ∷ xs) = x + total xs

laps-gaps :
    {A B : Type 0} (clock : ℕ → A) (lap : A → A → B) (f : ℕ → B) (ns : ℕ → ℕ)
    → ((n : ℕ) → lap (clock n) (clock (suc n)) ≡ f (ns (suc n) - ns n))
    → (rounds n : ℕ) → laps clock lap rounds n ≡ map f (gaps ns rounds n)
unfolding laps
laps-gaps clock lap f ns each zero n = refl
laps-gaps clock lap f ns each (suc rounds) n =
    rw (each n)
      (ap (λ xs. f (ns (suc n) - ns n) ∷ xs) (laps-gaps clock lap f ns each rounds (suc (suc n))))

plus_none : (n : ℕ) → n ≡ n + 2 * 0
plus_none n = omega arith

two_more : (n rounds : ℕ) → suc (suc n) + 2 * rounds ≡ n + 2 * suc rounds
two_more n rounds = omega arith

gaps-total :
    (ns : ℕ → ℕ)
    → ((n : ℕ) → ns n ≤ ns (suc n))
    → (rounds n : ℕ) → total (gaps ns (suc rounds) n) + ns n ≤ ns (suc (n + 2 * rounds))
gaps-total ns up zero n =
    subst (λ j. ns (suc n) - ns n + 0 + ns n ≤ ns (suc j)) (plus_none n) (omega (arith, up n))
gaps-total ns up (suc rounds) n =
    let rest = gaps-total ns up rounds (suc (suc n)) in
    subst (λ j. total (gaps ns (suc (suc rounds)) n) + ns n ≤ ns (suc j)) (two_more n rounds)
      (omega (arith, up n, up (suc n), rest))

fits : (a : ℤ) → pos_part a ≤ neg_part a + 2 ^ 53 → neg_part a ≤ pos_part a + 2 ^ 53 → IsExact a
fits (pos n) up down = (omega arith, omega arith)
fits (negsuc n) up down = (omega arith, omega arith)

module _ (api : DoubleApi) (laws : IsDoubleApi api) where
  in_double-exact :
      (start end : Timespec) (a b : ℕ)
      → nanos start ≡ pos a
      → nanos end ≡ pos b
      → IsReading start
      → IsReading end
      → a ≤ b
      → b - a ≤ 2 ^ 52
      → in_double api start end ≡ api.of_long (pos (b - a))
  in_double-exact start end a b ea eb ra rb order small =
      let s : ℤ = end.tv_sec -ℤ start.tv_sec in
      let n : ℤ = end.tv_nsec -ℤ start.tv_nsec in
      let whole : scale 1000000000 s +ℤ n ≡ pos (b - a) =
        omega (int_laws, ap pos_part ea, ap neg_part ea, ap pos_part eb, ap neg_part eb, order) in
      let n_fits : IsExact n =
        fits n (omega (int_laws, ra.low, ra.high, rb.low, rb.high))
          (omega (int_laws, ra.low, ra.high, rb.low, rb.high)) in
      let wp = ap pos_part whole in
      let wn = ap neg_part whole in
      let scaled_fits : IsExact (scale 1000000000 s) =
        fits (scale 1000000000 s)
          (omega (int_laws, wp, wn, small, ra.low, ra.high, rb.low, rb.high))
          (omega (int_laws, wp, wn, small, ra.low, ra.high, rb.low, rb.high)) in
      let s_fits : IsExact s =
        fits s (omega (int_laws, wp, wn, small, ra.low, ra.high, rb.low, rb.high))
          (omega (int_laws, wp, wn, small, ra.low, ra.high, rb.low, rb.high)) in
      rw (in_double, laws.times_exact s 1000000000 s_fits (omega arith, omega arith) scaled_fits)
        (laws.plus_exact (scale 1000000000 s) n scaled_fits n_fits
            (rw whole (omega arith, omega arith))
          ∙ ap api.of_long whole)

  -- Readings of the clock with nanoseconds from 0 to under a second, in order, and each at most 2 ^
  -- 52 nanoseconds behind the one before, and a `double` with exact products and sums of integers
  -- up to 2 ^ 53: `main` of ioctl.cpp, where the device opens, and `main` of getpid_call.cpp print
  -- 10000 times, which are exactly those between the two readings of each round, and add up to no
  -- more than what passes from the first reading to the last.
  pub stores_time :
      (fd : ℕ) (clock : ℕ → Timespec) (ns : ℕ → ℕ)
      → ((n : ℕ) → nanos (clock n) ≡ pos (ns n))
      → ((n : ℕ) → IsReading (clock n))
      → ((n : ℕ) → ns n ≤ ns (suc n))
      → ((n : ℕ) → ns (suc n) - ns n ≤ 2 ^ 52)
      → (xs : List ℕ) × (ioctl_main api (pos fd) clock
          ≡ times_of (map (λ x. api.of_long (pos x)) xs))
        × (getpid_main api clock ≡ map (λ x. api.of_long (pos x)) xs)
        × (xs ≡ gaps ns count 0)
        × (total xs + ns 0 ≤ ns 19999)
  unfolding ioctl_main getpid_main
  stores_time fd clock ns readings normal up small =
      let e : laps clock (in_double api) count 0
          ≡ map (λ x. api.of_long (pos x)) (gaps ns count 0) =
        laps-gaps clock (in_double api) (λ x. api.of_long (pos x)) ns
          (λ n.
            in_double-exact (clock n) (clock (suc n)) (ns n) (ns (suc n)) (readings n)
              (readings (suc n)) (normal n) (normal (suc n)) (up n) (small n))
          count 0 in
      (gaps ns count 0, ap times_of e, e, refl, gaps-total ns up 9999 0)

-- Times of 64 bits, whose differences do not overflow where both are not negative.
pub record IsKtimeApi (api : KtimeApi) : Type 0 where
  pub sub_exact :
      (a b : api.Ktime) (m n : ℕ)
      → api.ktime_to_ns a ≡ pos m
      → api.ktime_to_ns b ≡ pos n
      → n ≤ m
      → api.ktime_to_ns (api.ktime_sub a b) ≡ pos (m - n)

-- `ktime_sub_module_init` of time_taken.c with readings in the order of the clock logs ten times, those
-- between the two readings of each round.
time_taken-gaps :
    (api : KtimeApi)
    → IsKtimeApi api
    → (ktime_get : ℕ → api.Ktime) (ns : ℕ → ℕ)
    → ((n : ℕ) → api.ktime_to_ns (ktime_get n) ≡ pos (ns n))
    → ((n : ℕ) → ns n ≤ ns (suc n))
    → time_taken_init api ktime_get ≡ (map pos (gaps ns 10 0), pos 0)
unfolding time_taken_init
time_taken-gaps api laws ktime_get ns readings up =
    ap (λ xs. (xs, pos 0))
      (laps-gaps ktime_get (λ start end. api.ktime_to_ns (api.ktime_sub end start)) pos ns
        (λ n.
          laws.sub_exact (ktime_get (suc n)) (ktime_get n) (ns (suc n)) (ns n) (readings (suc n))
            (readings n) (up n))
        10 0)
