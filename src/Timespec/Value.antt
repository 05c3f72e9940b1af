-- ===== src/Timespec/Value.antt =====
-- The number of nanoseconds that a `timespec` stands for, and what a normal one is.
use ttex_kernel.Common.{
  ℕ, ◌≤◌, ◌≡◌, refl, arith, ◌⊎◌, inl, inr, Bool-cases, Bool, true, false, ◌&&◌, leb_ℤ, leb_ℤ→le,
  leb_ℤ→gt, ltb_ℤ, ltb_ℤ→lt, ltb_ℤ→ge, ℤ, pos, negsuc, pos_part, neg_part, ◌+ℤ◌, ◌-ℤ◌, ◌<ℤ◌, ◌≤ℤ◌,
  scale, int_laws,
}
use ttex_kernel.Timespec.{nsec_per_sec, Timespec, minus_nsec}

abbrev pub nanos : Timespec → ℤ
nanos ts = scale nsec_per_sec ts.tv_sec +ℤ ts.tv_nsec

-- Below a second, and of the sign of the seconds.
pub record IsNormal (ts : Timespec) : Type 0 where
  pub above : minus_nsec <ℤ ts.tv_nsec
  pub below : ts.tv_nsec <ℤ pos nsec_per_sec
  pub not_under : ts.tv_nsec <ℤ pos 0 → ts.tv_sec ≤ℤ pos 0
  pub not_over : pos 0 <ℤ ts.tv_nsec → pos 0 ≤ℤ ts.tv_sec

-- The absolute value is at most `n`.
pub record IsWithin (n : ℕ) (a : ℤ) : Type 0 where
  pub up : pos_part a ≤ n
  pub down : neg_part a ≤ n

-- Seconds and nanoseconds that trade places.
pub nanos_carry :
    (s n : ℤ)
    → nanos (record { tv_sec = s +ℤ pos 1; tv_nsec = n -ℤ pos nsec_per_sec })
      ≡ nanos (record { tv_sec = s; tv_nsec = n })
nanos_carry s n = omega int_laws

pub nanos_borrow :
    (s n : ℤ)
    → nanos (record { tv_sec = s -ℤ pos 1; tv_nsec = n +ℤ pos nsec_per_sec })
      ≡ nanos (record { tv_sec = s; tv_nsec = n })
nanos_borrow s n = omega int_laws

pub &&-true : (a b : Bool) → (a && b) ≡ true → (a ≡ true) × (b ≡ true)
&&-true true b h = (refl, h)
&&-true false b h = cc

-- One part of an integer is 0.
pub one_part : (a : ℤ) → (pos_part a ≡ 0) ⊎ (neg_part a ≡ 0)
one_part (pos n) = inr refl
one_part (negsuc n) = inl refl

-- The two fields lie on one side of 0.
pub normal_signs :
    (ts : Timespec)
    → IsNormal ts
    → ((pos 0 ≤ℤ ts.tv_sec) × (pos 0 ≤ℤ ts.tv_nsec))
      ⊎ ((ts.tv_sec ≤ℤ pos 0) × (ts.tv_nsec ≤ℤ pos 0))
normal_signs ts n = elim (Bool-cases (ltb_ℤ ts.tv_nsec (pos 0))) [
  | inl e ↦ let h = ltb_ℤ→lt ts.tv_nsec (pos 0) e in inr (n.not_under h, omega arith)
  | inr e ↦ elim (Bool-cases (ltb_ℤ (pos 0) ts.tv_nsec)) [
    | inl f ↦ let h = ltb_ℤ→lt (pos 0) ts.tv_nsec f in inl (n.not_over h, omega arith)
    | inr f ↦
        let z = ltb_ℤ→ge (pos 0) ts.tv_nsec f in
        let w = ltb_ℤ→ge ts.tv_nsec (pos 0) e in
        elim (Bool-cases (leb_ℤ (pos 0) ts.tv_sec)) [
          | inl g ↦ inl (leb_ℤ→le (pos 0) ts.tv_sec g, w)
          | inr g ↦ let h = leb_ℤ→gt (pos 0) ts.tv_sec g in inr (omega arith, z)
        ]
  ]
]
