-- ===== src/Timespec/Bounded.antt =====
-- Normal forms and sums on a machine that is exact up to a bound, for times within another.
use ttex_kernel.Common.{
  ℕ, suc, ◌+◌, ◌*◌, ◌/◌, ◌≤◌, ◌≡◌, refl, arith, ◌∙◌, ℤ, pos_part, neg_part, ◌+ℤ◌, int_laws, Outcome,
  ok,
}
use ttex_kernel.Timespec.{nsec_per_sec, Timespec, timespec_normalise, timespec_add}
use ttex_kernel.Timespec.Value.{nanos, IsNormal, IsWithin, one_part}
use ttex_kernel.Timespec.Loops.{roll_over-lem, roll_under-lem, align_signs-lem}

-- How far the seconds of a normal form can be from 0.
abbrev pub spread : (s m : ℕ) → ℕ
spread s m = s + 2 * (m / nsec_per_sec) + 3

module _ (long : ℤ → Outcome ℤ) (bound : ℕ) (exact : (a : ℤ) → IsWithin bound a → long a ≡ ok a)
    (wide : 10000000000 ≤ bound) where
  pub timespec_normalise-lem :
      (ts : Timespec) (s m : ℕ)
      → IsWithin s ts.tv_sec
      → IsWithin m ts.tv_nsec
      → m ≤ bound + nsec_per_sec
      → spread s m ≤ bound
      → (r : Timespec) × (timespec_normalise long ts ≡ ok r)
        × (nanos r ≡ nanos ts)
        × IsNormal r
        × IsWithin (spread s m) r.tv_sec
  unfolding timespec_normalise
  timespec_normalise-lem ts s m ws wm small fits =
      let f1 = suc (pos_part ts.tv_nsec / nsec_per_sec) in
      let (over, e1, same1, below1, w1, under1) =
        roll_over-lem long bound exact wide f1 ts s (omega arith) ws (omega (arith, wm.up))
          (omega (arith, wm.up)) in
      let f2 = suc (neg_part over.tv_nsec / nsec_per_sec) in
      let (within, e2, same2, below2, above2, w2) =
        roll_under-lem long bound exact wide f2 over (s + f1) (omega arith) below1 w1
          (omega (arith, wm.up, wm.down)) (omega (arith, wm.down)) in
      let (r, e3, same3, normal, w3) =
        align_signs-lem long bound exact wide within (s + f1 + f2) below2 above2 w2
          (omega (arith, wm.up, wm.down)) in
      (
        r,
        rw (e1, e2) e3,
        same3 ∙ same2 ∙ same1,
        normal,
        record {
          up = omega (arith, w3.up, wm.up, wm.down);
          down = omega (arith, w3.down, wm.up, wm.down);
        },
      )

  -- The sum of times whose fields lie within `s` and `m`.
  pub timespec_add-lem :
      (a b : Timespec) (s m : ℕ)
      → IsWithin s a.tv_sec
      → IsWithin m a.tv_nsec
      → IsWithin s b.tv_sec
      → IsWithin m b.tv_nsec
      → m ≤ bound + nsec_per_sec
      → 2 * spread s m + 7 ≤ bound
      → (r : Timespec) × (timespec_add long a b ≡ ok r)
        × (nanos r ≡ nanos a +ℤ nanos b)
        × IsNormal r
  unfolding timespec_add
  timespec_add-lem a b s m sa ma sb mb small fits =
      let (a', ea, same_a, na, wa) = timespec_normalise-lem a s m sa ma small (omega arith) in
      let (b', eb, same_b, nb, wb) = timespec_normalise-lem b s m sb mb small (omega arith) in
      let sec = a'.tv_sec +ℤ b'.tv_sec in
      let nsec = a'.tv_nsec +ℤ b'.tv_nsec in
      let o1 = one_part sec in
      let o2 = one_part nsec in
      let ws : IsWithin (2 * spread s m) sec = record {
        up = omega (int_laws, wa.up, wa.down, wb.up, wb.down);
        down = omega (int_laws, wa.up, wa.down, wb.up, wb.down);
      } in
      let wn : IsWithin 2000000000 nsec = record {
        up = omega (int_laws, na.above, na.below, nb.above, nb.below);
        down = omega (int_laws, na.above, na.below, nb.above, nb.below);
      } in
      let (r, er, same, normal, _) =
        timespec_normalise-lem (record { tv_sec = sec; tv_nsec = nsec }) (2 * spread s m) 2000000000
          ws wn (omega arith) (omega arith) in
      (
        r,
        rw
            (
              ea,
              eb,
              exact sec (record { up = omega (arith, ws.up); down = omega (arith, ws.down) }),
              exact nsec (record { up = omega (arith, wn.up); down = omega (arith, wn.down) }),
            )
            er,
        same ∙ sums a' b' ∙ rw (same_a, same_b) refl,
        normal,
      )
    where
      sums :
          (x y : Timespec)
          → nanos (record { tv_sec = x.tv_sec +ℤ y.tv_sec; tv_nsec = x.tv_nsec +ℤ y.tv_nsec })
            ≡ nanos x +ℤ nanos y
      sums x y = omega int_laws
