-- ===== src/Timespec/Normal.antt =====
-- A time has one normal `timespec`; normal forms, sums, differences and the test for equality by it.
use ttex_kernel.Common.{
  ℕ, ◌+◌, ◌*◌, ◌≤◌, ◌≡◌, ◌↔◌, refl, arith, true, Bool, if◌then◌else◌, ◌&&◌, sym, ◌∙◌, ap, ℤ,
  pos_part, neg_part, ◌+ℤ◌, ◌-ℤ◌, int_laws, eq_ℤ, eq_ℤ→eq, eq→eq_ℤ, eq_of_parts, ok, ◌>>=◌, false,
}
use ttex_kernel.Timespec.{
  Timespec, unbounded, timespec_normalise, timespec_compare, timespec_add, timespec_sub,
}
use ttex_kernel.Timespec.Value.{nanos, IsNormal, IsWithin, normal_signs}
use ttex_kernel.Timespec.Bounded.{spread, timespec_normalise-lem, timespec_add-lem}

normal_sec : (a b : Timespec) → IsNormal a → IsNormal b → nanos a ≡ nanos b → a.tv_sec ≡ b.tv_sec
normal_sec a b na nb e =
    let sa = normal_signs a na in
    let sb = normal_signs b nb in
    eq_of_parts a.tv_sec b.tv_sec (omega (int_laws, ap pos_part e, ap neg_part e))

-- Two normal values of one time are equal.
pub normal_unique : (a b : Timespec) → IsNormal a → IsNormal b → nanos a ≡ nanos b → a ≡ b
normal_unique a b na nb e =
    let s = normal_sec a b na nb e in
    let n : a.tv_nsec ≡ b.tv_nsec =
      eq_of_parts a.tv_nsec b.tv_nsec
        (omega (int_laws, ap pos_part e, ap neg_part e, ap pos_part s, ap neg_part s)) in
    λ i. record { tv_sec = s i; tv_nsec = n i }

abbrev size : ℤ → ℕ
size a = pos_part a + neg_part a

size-IsWithin : (a : ℤ) (m : ℕ) → size a ≤ m → IsWithin m a
size-IsWithin a m h = record { up = omega arith; down = omega arith }

-- On every input of integers without bound, `timespec_normalise` gives a result, where a loop that
-- came to the end of its fuel before its test fails would give none; the result stands for the same
-- number of nanoseconds and is normal: its nanoseconds are under a second in absolute value, and
-- its two fields have no opposite signs.
pub timespec_normalise-IsNormal :
    (ts : Timespec)
    → (r : Timespec) × (timespec_normalise unbounded ts ≡ ok r) × (nanos r ≡ nanos ts) × IsNormal r
timespec_normalise-IsNormal ts =
    let s = size ts.tv_sec in
    let m = size ts.tv_nsec in
    let (r, e, same, normal, _) =
      timespec_normalise-lem unbounded (spread s m + m + 10000000000) (λ a w. refl) (omega arith) ts
        s m (size-IsWithin ts.tv_sec s (omega arith)) (size-IsWithin ts.tv_nsec m (omega arith))
        (omega arith) (omega arith) in
    (r, e, same, normal)

-- On integers without bound `timespec_compare` gives a result, which is true exactly when its
-- arguments stand for the same number of nanoseconds.
pub timespec_compare_iff :
    (a b : Timespec)
    → (x : Bool) × (timespec_compare unbounded a b ≡ ok x) × ((x ≡ true) ↔ (nanos a ≡ nanos b))
unfolding timespec_compare
timespec_compare_iff a b =
    let (a', ea, sa, na) = timespec_normalise-IsNormal a in
    let (b', eb, sb, nb) = timespec_normalise-IsNormal b in
    (
      if eq_ℤ a'.tv_nsec b'.tv_nsec && eq_ℤ a'.tv_sec b'.tv_sec then true else false,
      rw (ea, eb) refl,
      (
        λ h.
            let es : a'.tv_sec ≡ b'.tv_sec = ground (arith, eq_ℤ→eq a'.tv_sec b'.tv_sec) in
            let en : a'.tv_nsec ≡ b'.tv_nsec = ground (arith, eq_ℤ→eq a'.tv_nsec b'.tv_nsec) in
            let e : a' ≡ b' = λ i. record { tv_sec = es i; tv_nsec = en i } in
            sym sa ∙ ap nanos e ∙ sb,
        λ h.
            let e : a' ≡ b' = normal_unique a' b' na nb (sa ∙ h ∙ sym sb) in
            rw (eq→eq_ℤ a'.tv_nsec b'.tv_nsec (ap (λ (x : Timespec). x.tv_nsec) e))
              (rw (eq→eq_ℤ a'.tv_sec b'.tv_sec (ap (λ (x : Timespec). x.tv_sec) e))),
      ),
    )

-- On integers without bound `timespec_add` gives a result, which stands for the sum of the numbers
-- of nanoseconds and is normal.
pub timespec_add-nanos :
    (a b : Timespec)
    → (r : Timespec) × (timespec_add unbounded a b ≡ ok r)
      × (nanos r ≡ nanos a +ℤ nanos b)
      × IsNormal r
timespec_add-nanos a b =
    let s = size a.tv_sec + size b.tv_sec in
    let m = size a.tv_nsec + size b.tv_nsec in
    timespec_add-lem unbounded (2 * spread s m + m + 10000000000) (λ a w. refl) (omega arith) a b s
      m (size-IsWithin a.tv_sec s (omega arith)) (size-IsWithin a.tv_nsec m (omega arith))
      (size-IsWithin b.tv_sec s (omega arith)) (size-IsWithin b.tv_nsec m (omega arith))
      (omega arith) (omega arith)

-- `timespec_sub` gives the difference of the numbers of nanoseconds, and its result is normal.
timespec_sub-nanos :
    (a b : Timespec)
    → (r : Timespec) × (timespec_sub unbounded a b ≡ ok r)
      × (nanos r ≡ nanos a -ℤ nanos b)
      × IsNormal r
unfolding timespec_sub
timespec_sub-nanos a b =
    let (a', ea, sa, _) = timespec_normalise-IsNormal a in
    let (b', eb, sb, _) = timespec_normalise-IsNormal b in
    let (r, er, s, n) =
      timespec_normalise-IsNormal
        (record { tv_sec = a'.tv_sec -ℤ b'.tv_sec; tv_nsec = a'.tv_nsec -ℤ b'.tv_nsec }) in
    (r, rw (ea, eb) er, s ∙ differences a' b' ∙ rw (sa, sb) refl, n)
  where
    differences :
        (x y : Timespec)
        → nanos (record { tv_sec = x.tv_sec -ℤ y.tv_sec; tv_nsec = x.tv_nsec -ℤ y.tv_nsec })
          ≡ nanos x -ℤ nanos y
    differences x y = omega int_laws

-- On integers without bound, `timespec_sub` of what `timespec_add` of two times gives and of the
-- second time comes to the normal form of the first, as `timespec_normalise` gives it.
pub timespec_sub-timespec_add :
    (a b : Timespec)
    → (timespec_add unbounded a b >>= λ s. timespec_sub unbounded s b)
      ≡ timespec_normalise unbounded a
timespec_sub-timespec_add a b =
    let (a', ea, sa, na) = timespec_normalise-IsNormal a in
    let (s, e1, s1, _) = timespec_add-nanos a b in
    let (r, e2, s2, n2) = timespec_sub-nanos s b in
    rw (e1, e2, ea)
      (ap ok (normal_unique r a' n2 na (s2 ∙ rw s1 (cancel (nanos a) (nanos b)) ∙ sym sa)))
  where
    cancel : (x y : ℤ) → x +ℤ y -ℤ y ≡ x
    cancel x y = omega int_laws
