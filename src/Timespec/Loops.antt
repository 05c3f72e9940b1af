-- ===== src/Timespec/Loops.antt =====
-- The loops of `timespec_normalise` on a machine that is exact up to a bound: they end by their tests,
-- and compute nothing above the bound.
use ttex_kernel.Common.{
  ℕ, zero, suc, ◌+◌, ◌*◌, ◌<◌, ◌≤◌, ◌≡◌, refl, arith, ◌∙◌, inl, inr, Bool-cases, ◌&&◌, leb_ℤ,
  leb_ℤ→le, leb_ℤ→gt, ltb_ℤ, ltb_ℤ→lt, ℤ, pos, pos_part, neg_part, ◌+ℤ◌, ◌-ℤ◌, ◌<ℤ◌, int_laws,
  Outcome, ok,
}
use ttex_kernel.Timespec.{nsec_per_sec, Timespec, minus_nsec, roll_over, roll_under, align_signs}
use ttex_kernel.Timespec.Value.{
  nanos, IsNormal, IsWithin, one_part, &&-true, nanos_carry, nanos_borrow,
}

module _ (long : ℤ → Outcome ℤ) (bound : ℕ) (exact : (a : ℤ) → IsWithin bound a → long a ≡ ok a)
    (wide : 10000000000 ≤ bound) where
  pub roll_over-lem :
      (fuel : ℕ) (ts : Timespec) (s : ℕ)
      → pos_part ts.tv_nsec < fuel * nsec_per_sec
      → IsWithin s ts.tv_sec
      → s + fuel ≤ bound
      → pos_part ts.tv_nsec ≤ bound + nsec_per_sec
      → (r : Timespec) × (roll_over long fuel ts ≡ ok r)
        × (nanos r ≡ nanos ts)
        × (r.tv_nsec <ℤ pos nsec_per_sec)
        × IsWithin (s + fuel) r.tv_sec
        × (neg_part r.tv_nsec ≤ neg_part ts.tv_nsec)
  unfolding roll_over
  roll_over-lem zero ts s h w f m = absurd (omega arith)
  roll_over-lem (suc fuel) ts s h w f m = elim (Bool-cases (leb_ℤ (pos nsec_per_sec) ts.tv_nsec)) [
    | inl e ↦
        let over = leb_ℤ→le (pos nsec_per_sec) ts.tv_nsec e in
        let sec = ts.tv_sec +ℤ pos 1 in
        let nsec = ts.tv_nsec -ℤ pos nsec_per_sec in
        let o1 = one_part ts.tv_nsec in
        let o2 = one_part nsec in
        let o3 = one_part ts.tv_sec in
        let o4 = one_part sec in
        let w' : IsWithin (suc s) sec = record {
          up = omega (int_laws, w.up, w.down);
          down = omega (int_laws, w.up, w.down);
        } in
        let small : IsWithin bound sec = record {
          up = omega (arith, w'.up);
          down = omega (arith, w'.down);
        } in
        let n' : IsWithin bound nsec = record { up = omega int_laws; down = omega int_laws } in
        let (r, ran, same, below, rw', under) =
          roll_over-lem fuel (record { tv_sec = sec; tv_nsec = nsec }) (suc s) (omega int_laws) w'
            (omega arith) (omega int_laws) in
        (
          r,
          rw (e, exact sec small, exact nsec n') ran,
          same ∙ nanos_carry ts.tv_sec ts.tv_nsec,
          below,
          record { up = omega (arith, rw'.up); down = omega (arith, rw'.down) },
          omega int_laws,
        )
    | inr e ↦ (
      ts,
      rw e refl,
      refl,
      leb_ℤ→gt (pos nsec_per_sec) ts.tv_nsec e,
      record { up = omega (arith, w.up); down = omega (arith, w.down) },
      omega arith,
    )
  ]

  pub roll_under-lem :
      (fuel : ℕ) (ts : Timespec) (s : ℕ)
      → neg_part ts.tv_nsec < fuel * nsec_per_sec
      → ts.tv_nsec <ℤ pos nsec_per_sec
      → IsWithin s ts.tv_sec
      → s + fuel ≤ bound
      → neg_part ts.tv_nsec ≤ bound + nsec_per_sec
      → (r : Timespec) × (roll_under long fuel ts ≡ ok r)
        × (nanos r ≡ nanos ts)
        × (r.tv_nsec <ℤ pos nsec_per_sec)
        × (minus_nsec <ℤ r.tv_nsec)
        × IsWithin (s + fuel) r.tv_sec
  unfolding roll_under
  roll_under-lem zero ts s h u w f m = absurd (omega arith)
  roll_under-lem (suc fuel) ts s h u w f m = elim (Bool-cases (leb_ℤ ts.tv_nsec minus_nsec)) [
    | inl e ↦
        let under = leb_ℤ→le ts.tv_nsec minus_nsec e in
        let sec = ts.tv_sec -ℤ pos 1 in
        let nsec = ts.tv_nsec +ℤ pos nsec_per_sec in
        let o1 = one_part ts.tv_nsec in
        let o2 = one_part nsec in
        let o3 = one_part ts.tv_sec in
        let o4 = one_part sec in
        let w' : IsWithin (suc s) sec = record {
          up = omega (int_laws, w.up, w.down);
          down = omega (int_laws, w.up, w.down);
        } in
        let small : IsWithin bound sec = record {
          up = omega (arith, w'.up);
          down = omega (arith, w'.down);
        } in
        let n' : IsWithin bound nsec = record { up = omega int_laws; down = omega int_laws } in
        let (r, ran, same, below, above, rw') =
          roll_under-lem fuel (record { tv_sec = sec; tv_nsec = nsec }) (suc s) (omega int_laws)
            (omega int_laws) w' (omega arith) (omega int_laws) in
        (
          r,
          rw (e, exact sec small, exact nsec n') ran,
          same ∙ nanos_borrow ts.tv_sec ts.tv_nsec,
          below,
          above,
          record { up = omega (arith, rw'.up); down = omega (arith, rw'.down) },
        )
    | inr e ↦ (
      ts,
      rw e refl,
      refl,
      u,
      leb_ℤ→gt ts.tv_nsec minus_nsec e,
      record { up = omega (arith, w.up); down = omega (arith, w.down) },
    )
  ]

  pub align_signs-lem :
      (ts : Timespec) (s : ℕ)
      → ts.tv_nsec <ℤ pos nsec_per_sec
      → minus_nsec <ℤ ts.tv_nsec
      → IsWithin s ts.tv_sec
      → suc s ≤ bound
      → (r : Timespec) × (align_signs long ts ≡ ok r)
        × (nanos r ≡ nanos ts)
        × IsNormal r
        × IsWithin (suc s) r.tv_sec
  unfolding align_signs
  align_signs-lem ts s below above w f =
      let o1 = one_part ts.tv_nsec in
      let opposite = pos 0 -ℤ ts.tv_nsec in
      let o2 = one_part opposite in
      let op : IsWithin bound opposite = record { up = omega int_laws; down = omega int_laws } in
      elim (Bool-cases (ltb_ℤ ts.tv_nsec (pos 0) && ltb_ℤ (pos 0) ts.tv_sec)) [
        | inl e ↦
            let (e1, e2) = &&-true _ _ e in
            let n = ltb_ℤ→lt ts.tv_nsec (pos 0) e1 in
            let p = ltb_ℤ→lt (pos 0) ts.tv_sec e2 in
            let sec = ts.tv_sec -ℤ pos 1 in
            let nsec = pos nsec_per_sec -ℤ opposite in
            let o3 = one_part sec in
            let o4 = one_part nsec in
            let o5 = one_part ts.tv_sec in
            let w' : IsWithin (suc s) sec = record {
              up = omega (int_laws, w.up, w.down);
              down = omega (int_laws, w.up, w.down);
            } in
            let ws : IsWithin bound sec = record {
              up = omega (arith, w'.up);
              down = omega (arith, w'.down);
            } in
            let wn : IsWithin bound nsec = record { up = omega int_laws; down = omega int_laws } in
            (
              record { tv_sec = sec; tv_nsec = nsec },
              rw (e, exact sec ws, exact opposite op, exact nsec wn) refl,
              omega int_laws,
              record {
                above = omega int_laws;
                below = omega int_laws;
                not_under = λ h. omega int_laws;
                not_over = λ h. omega int_laws;
              },
              w',
            )
        | inr e ↦ elim (Bool-cases (ltb_ℤ (pos 0) ts.tv_nsec && ltb_ℤ ts.tv_sec (pos 0))) [
          | inl g ↦
              let (e1, e2) = &&-true _ _ g in
              let n = ltb_ℤ→lt (pos 0) ts.tv_nsec e1 in
              let p = ltb_ℤ→lt ts.tv_sec (pos 0) e2 in
              let sec = ts.tv_sec +ℤ pos 1 in
              let nsec = minus_nsec -ℤ opposite in
              let o3 = one_part sec in
              let o4 = one_part nsec in
              let o5 = one_part ts.tv_sec in
              let w' : IsWithin (suc s) sec = record {
                up = omega (int_laws, w.up, w.down);
                down = omega (int_laws, w.up, w.down);
              } in
              let ws : IsWithin bound sec = record {
                up = omega (arith, w'.up);
                down = omega (arith, w'.down);
              } in
              let wn : IsWithin bound nsec = record {
                up = omega int_laws;
                down = omega int_laws;
              } in
              (
                record { tv_sec = sec; tv_nsec = nsec },
                rw (e, g, exact sec ws, exact opposite op, exact nsec wn) refl,
                omega int_laws,
                record {
                  above = omega int_laws;
                  below = omega int_laws;
                  not_under = λ h. omega int_laws;
                  not_over = λ h. omega int_laws;
                },
                w',
              )
          | inr g ↦ (
            ts,
            rw (e, g) refl,
            refl,
            record {
              above = above;
              below = below;
              not_under = λ h. ground arith;
              not_over = λ h. ground arith;
            },
            record { up = omega (arith, w.up); down = omega (arith, w.down) },
          )
        ]
      ]
