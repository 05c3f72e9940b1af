-- ===== src/Driver/Interleave.antt =====
-- Two orders of the same switches: what the interleaving of different threads makes of the map.
use ttex_kernel.Common.{
  ◌≡◌, refl, inl, inr, some, List, ◌∙◌, sym, ap, ok, fault, ℤ, pos, negsuc, Option-cases,
}
use ttex_kernel.Timer.{TimerApi}
use ttex_kernel.ThreadMap.{ThreadMap, get, hash_function}
use ttex_kernel.ThreadMap.Chain.{Entries, find}
use ttex_kernel.ThreadMap.Refine.{IsMap, get-find}
use ttex_kernel.ThreadMap.Unallocated.{get_outside}
use ttex_kernel.ThreadMap.Info.{info_at}
use ttex_kernel.ThreadMap.Write.{info_at-none, info_at-some}
use ttex_kernel.Driver.{Data, State}
use ttex_kernel.Driver.Isolation.{Switch, InRange, run_switches, run_switches-Switched, replay}
use ttex_kernel.Driver.Trace.{trace, replay-trace}

module _ {T : Type 0} where
  info_at_outside : (m : ThreadMap T) (k : ℤ) → get m k ≡ fault → info_at m k ≡ fault
  unfolding info_at
  info_at_outside m k g = rw g

  -- Two maps for the same entries agree on a key that has no data.
  info_at_agree :
      (m m1 m2 : ThreadMap T) (es : Entries) (k : ℤ)
      → IsMap m es
      → IsMap m1 es
      → IsMap m2 es
      → ((p : _) → get m k ≡ ok (some p) → info_at m1 k ≡ info_at m2 k)
      → info_at m1 k ≡ info_at m2 k
  info_at_agree m m1 m2 es k is is1 is2 found = by_place (hash_function k) refl
    where
      by_place : (h : ℤ) → hash_function k ≡ h → info_at m1 k ≡ info_at m2 k
      by_place (negsuc b) e =
          info_at_outside m1 k (get_outside m1 k b e)
          ∙ sym (info_at_outside m2 k (get_outside m2 k b e))
      by_place (pos i) e = elim (Option-cases (find k es)) [
        | inl absent ↦
            info_at-none m1 k (get-find m1 es k i is1 e ∙ ap ok absent)
            ∙ sym (info_at-none m2 k (get-find m2 es k i is2 e ∙ ap ok absent))
        | inr (p, there) ↦ found p (get-find m es k i is e ∙ ap ok there)
      ]

module _ (api : TimerApi) where
  replay-same :
      (k : ℤ) (ss ss' : List Switch) (t : Data api)
      → trace k ss ≡ trace k ss'
      → replay api k ss t ≡ replay api k ss' t
  replay-same k ss ss' t e = replay-trace api k ss t ∙ rw e refl ∙ sym (replay-trace api k ss' t)

  -- Two lists of switches, both with ids that have a place in the array, in which every thread has
  -- the same switches of its own in the same order: on a map that stands for entries both run to
  -- their ends, and then every key leads to the same data, or to none, in both maps.
  pub run_switches_interleave :
      (d : State api) (es : Entries) (ss ss' : List Switch)
      → IsMap d.thread_map es
      → InRange ss
      → InRange ss'
      → ((k : ℤ) → trace k ss ≡ trace k ss')
      → (d1 d2 : State api) × (run_switches api d ss ≡ ok d1)
        × (run_switches api d ss' ≡ ok d2)
        × ((k : ℤ) → info_at d1.thread_map k ≡ info_at d2.thread_map k)
  run_switches_interleave d es ss ss' is r r' same =
      let (d1, e1, is1, at1) = run_switches-Switched api d es ss is r in
      let (d2, e2, is2, at2) = run_switches-Switched api d es ss' is r' in
      (
        d1,
        d2,
        e1,
        e2,
        λ k. info_at_agree d.thread_map d1.thread_map d2.thread_map es k is is1 is2 λ p g.
            let (t, there) = info_at-some d.thread_map k p g in
            at1 k t there
            ∙ ap (λ (x : Data api). ok (some x)) (replay-same k ss ss' t (same k))
            ∙ sym (at2 k t there),
      )
