-- ===== src/Timespec/Order.antt =====
-- The later of two times, and the time between two readings.
use ttex_kernel.Common.{
  ◌≡◌, refl, ◌⊎◌, inl, inr, arith, Bool-cases, if◌then◌else◌, pos, ◌-ℤ◌, ◌<ℤ◌, ◌≤ℤ◌, int_laws,
  ltb_ℤ, ltb_ℤ→lt, ltb_ℤ→ge, ok, subst,
}
use ttex_kernel.Timespec.{
  nsec_per_sec, Timespec, unbounded, timespec_normalise, timespec_higher, get_region_elapsed_time,
}
use ttex_kernel.Timespec.Value.{nanos, IsNormal, normal_signs}
use ttex_kernel.Timespec.Normal.{timespec_normalise-IsNormal}

-- Nanoseconds of a reading of a clock.
pub record IsReading (ts : Timespec) : Type 0 where
  pub low : pos 0 ≤ℤ ts.tv_nsec
  pub high : ts.tv_nsec <ℤ pos nsec_per_sec

-- For two readings of a clock, whose nanoseconds are from 0 to under a second,
-- `getRegionElapsedTime` stands for the difference of the second and the first, and its nanoseconds
-- are in that range again.
elapsed-nanos :
    (start stop : Timespec)
    → IsReading start
    → IsReading stop
    → (nanos (get_region_elapsed_time start stop) ≡ nanos stop -ℤ nanos start)
      × IsReading (get_region_elapsed_time start stop)
unfolding get_region_elapsed_time
elapsed-nanos start stop ra rb = elim (Bool-cases (ltb_ℤ (stop.tv_nsec -ℤ start.tv_nsec) (pos 0))) [
  | inl e ↦
      let n = ltb_ℤ→lt (stop.tv_nsec -ℤ start.tv_nsec) (pos 0) e in
      rw e (omega int_laws, record { low = omega int_laws; high = omega int_laws })
  | inr e ↦
      let n = ltb_ℤ→ge (stop.tv_nsec -ℤ start.tv_nsec) (pos 0) e in
      rw e (omega int_laws, record { low = omega int_laws; high = omega int_laws })
]

-- The order of normal values is that of their seconds first.
sec_first : (a b : Timespec) → IsNormal a → IsNormal b → a.tv_sec <ℤ b.tv_sec → nanos a ≤ℤ nanos b
sec_first a b na nb h = let sa = normal_signs a na in let sb = normal_signs b nb in omega int_laws

-- Of two normal values the later one, by the tests of `timespec_higher`.
abbrev later : (a b : Timespec) → Timespec
later a b =
    if ltb_ℤ b.tv_sec a.tv_sec
    then a
    else if ltb_ℤ a.tv_sec b.tv_sec
    then b
    else if ltb_ℤ b.tv_nsec a.tv_nsec
    then a
    else b

later-max :
    (a' b' : Timespec)
    → IsNormal a'
    → IsNormal b'
    → ((later a' b' ≡ a') ⊎ (later a' b' ≡ b'))
      × (nanos a' ≤ℤ nanos (later a' b'))
      × (nanos b' ≤ℤ nanos (later a' b'))
later-max a' b' na nb =
    let ga : nanos a' ≤ℤ nanos a' = omega arith in
    let gb : nanos b' ≤ℤ nanos b' = omega arith in
    elim (Bool-cases (ltb_ℤ b'.tv_sec a'.tv_sec)) [
      | inl e ↦
          let h = sec_first b' a' nb na (ltb_ℤ→lt b'.tv_sec a'.tv_sec e) in
          rw e (inl refl, ga, omega arith)
      | inr e ↦ elim (Bool-cases (ltb_ℤ a'.tv_sec b'.tv_sec)) [
        | inl f ↦
            let h = sec_first a' b' na nb (ltb_ℤ→lt a'.tv_sec b'.tv_sec f) in
            rw (e, f) (inr refl, omega arith, gb)
        | inr f ↦ elim (Bool-cases (ltb_ℤ b'.tv_nsec a'.tv_nsec)) [
          | inl g ↦
              let h =
                same_sec b' a' (ltb_ℤ→ge b'.tv_sec a'.tv_sec e) (ltb_ℤ→ge a'.tv_sec b'.tv_sec f)
                  (omega (arith, ltb_ℤ→lt b'.tv_nsec a'.tv_nsec g)) in
              rw (e, f, g) (inl refl, ga, omega arith)
          | inr g ↦
              let h =
                same_sec a' b' (ltb_ℤ→ge a'.tv_sec b'.tv_sec f) (ltb_ℤ→ge b'.tv_sec a'.tv_sec e)
                  (ltb_ℤ→ge b'.tv_nsec a'.tv_nsec g) in
              rw (e, f, g) (inr refl, omega arith, gb)
        ]
      ]
    ]
  where
    same_sec :
        (x y : Timespec)
        → y.tv_sec ≤ℤ x.tv_sec
        → x.tv_sec ≤ℤ y.tv_sec
        → x.tv_nsec ≤ℤ y.tv_nsec
        → nanos x ≤ℤ nanos y
    same_sec x y h k l = omega int_laws

-- `timespec_higher` returns the normal form of one of its arguments, and neither argument stands for a
-- later time than it.
timespec_higher-max :
    (a b : Timespec)
    → (a' b' r : Timespec) × (timespec_normalise unbounded a ≡ ok a')
      × (timespec_normalise unbounded b ≡ ok b')
      × (timespec_higher unbounded a b ≡ ok r)
      × ((r ≡ a') ⊎ (r ≡ b'))
      × (nanos a ≤ℤ nanos r)
      × (nanos b ≤ℤ nanos r)
unfolding timespec_higher
timespec_higher-max a b =
    let (a', ea, sa, na) = timespec_normalise-IsNormal a in
    let (b', eb, sb, nb) = timespec_normalise-IsNormal b in
    let (one, above_a, above_b) = later-max a' b' na nb in
    (
      a',
      b',
      later a' b',
      ea,
      eb,
      rw (ea, eb) refl,
      one,
      subst (λ n. n ≤ℤ nanos (later a' b')) sa above_a,
      subst (λ n. n ≤ℤ nanos (later a' b')) sb above_b,
    )
