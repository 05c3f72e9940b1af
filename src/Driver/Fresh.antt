-- ===== src/Driver/Fresh.antt =====
-- Context switches allocate nothing: an address that is no node stays so.
use ttex_kernel.Common.{
  Outcome, ◌≡◌, inl, inr, none, some, Option, List, [], ◌∷◌, ◌==◌, Bool-cases, >>=-eq-ok, ok,
  ok-injective, ℤ, subst,
}
use ttex_kernel.Timer.{TimerApi, Task}
use ttex_kernel.ThreadMap.{ThreadMap, ThreadData, Ptr, load, get}
use ttex_kernel.ThreadMap.Chain.{Entries}
use ttex_kernel.ThreadMap.Refine.{IsMap}
use ttex_kernel.ThreadMap.Info.{update_found, write_info, load-write_none}
use ttex_kernel.Driver.{Data, State, on_switch, pre_handler, post_handler, pause, resume}
use ttex_kernel.Driver.Isolation.{
  Switch, out, in', run_switch, run_switches, InRange, run_switches-Switched,
}

module _ {T : Type 0} where
  abbrev IsUnused : Ptr → ThreadMap T → Type 0
  IsUnused q m = load m.nodes q ≡ none

  write_info-IsUnused :
      (m : ThreadMap T) (p : Ptr) (f : ThreadData T → ThreadData T) (q : Ptr)
      → IsUnused q m
      → IsUnused q (write_info m p f)
  unfolding write_info
  write_info-IsUnused m p f q h = load-write_none f m.nodes p q h

  found_unused :
      (m m' : ThreadMap T) (f : ThreadData T → ThreadData T) (q : Ptr) (o : Option Ptr)
      → load m.nodes q ≡ none
      → (elim o as (λ _. Outcome (ThreadMap T)) [ none ↦ ok m | some p ↦ ok (write_info m p f) ])
        ≡ ok m'
      → load m'.nodes q ≡ none
  found_unused m m' f q none h e = subst (IsUnused q) (ok-injective e) h
  found_unused m m' f q (some p) h e =
      subst (IsUnused q) (ok-injective e) (write_info-IsUnused m p f q h)

  update_found-unused :
      (m m' : ThreadMap T) (k : ℤ) (f : ThreadData T → ThreadData T) (q : Ptr)
      → load m.nodes q ≡ none
      → update_found m k f ≡ ok m'
      → load m'.nodes q ≡ none
  unfolding update_found
  update_found-unused m m' k f q h e =
      let (o, g, r) = >>=-eq-ok (get m k) _ e in found_unused m m' f q o h r

module _ (api : TimerApi) where
  abbrev pub IsFree : Ptr → State api → Type 0
  IsFree q d = load d.thread_map.nodes q ≡ none

  on_switch-unused :
      (f : Data api → Data api) (d d' : State api) (task : Task) (q : Ptr)
      → load d.thread_map.nodes q ≡ none
      → on_switch api f d task ≡ ok d'
      → load d'.thread_map.nodes q ≡ none
  unfolding on_switch
  on_switch-unused f d d' task q h e = elim (Bool-cases (task.rt_priority == 10)) [
    | inr p ↦ let e' : ok d ≡ ok d' = rw p at e in subst (IsFree q) (ok-injective e') h
    | inl p ↦ elim (Bool-cases (d.thread_map.arr_size == 0)) [
      | inl z ↦ let e' : ok d ≡ ok d' = rw (p, z) at e in subst (IsFree q) (ok-injective e') h
      | inr z ↦
          let (m, u, r) =
            >>=-eq-ok (update_found d.thread_map task.pid f) (λ m. ok (record d { thread_map = m }))
              (rw (p, z) at e) in
          subst (IsFree q) (ok-injective r) (update_found-unused d.thread_map m task.pid f q h u)
    ]
  ]

  pub run_switches-unused :
      (d d' : State api) (ss : List Switch) (q : Ptr)
      → load d.thread_map.nodes q ≡ none
      → run_switches api d ss ≡ ok d'
      → load d'.thread_map.nodes q ≡ none
  unfolding run_switches run_switch pre_handler post_handler
  run_switches-unused d d' [] q h e = subst (IsFree q) (ok-injective e) h
  run_switches-unused d d' (out task now ∷ ss) q h e =
      let (d1, e1, r) = >>=-eq-ok (on_switch api (pause api now) d task) _ e in
      run_switches-unused d1 d' ss q (on_switch-unused (pause api now) d d1 task q h e1) r
  run_switches-unused d d' (in' task now ∷ ss) q h e =
      let (d1, e1, r) = >>=-eq-ok (on_switch api (resume api now) d task) _ e in
      run_switches-unused d1 d' ss q (on_switch-unused (resume api now) d d1 task q h e1) r

  -- Switches run on a map for entries, and allocate nothing.
  pub quiet_switches :
      (d : State api) (es : Entries) (ss : List Switch)
      → IsMap d.thread_map es
      → InRange ss
      → (d' : State api) × (run_switches api d ss ≡ ok d')
        × IsMap d'.thread_map es
        × ((q : Ptr) → load d.thread_map.nodes q ≡ none → load d'.thread_map.nodes q ≡ none)
  quiet_switches d es ss is r =
      let (d', e, is', _) = run_switches-Switched api d es ss is r in
      (d', e, is', λ q h. run_switches-unused d d' ss q h e)
