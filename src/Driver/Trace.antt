-- ===== src/Driver/Trace.antt =====
-- The handler runs that concern one thread, in their order.
use ttex_kernel.Common.{
  arith, ◌≡◌, refl, inl, inr, ◌&&◌, Bool, true, false, List, [], ◌∷◌, ◌==◌, ◌∙◌, if◌then◌else◌, ℤ,
  eq_ℤ, Bool-cases,
}
use ttex_kernel.Timer.{TimerApi, Clock}
use ttex_kernel.Driver.Switch.{IsTimed, Stay, away, aways}
use ttex_kernel.Driver.{Data, pause, resume}
use ttex_kernel.Driver.Isolation.{Switch, out, in', task_of, effect, replay}

-- The handler runs that concern a thread: `true` for a switch out.
abbrev pub Trace : Type 0
Trace = List (Bool × Clock)

abbrev pub event : Switch → Bool × Clock
event (out task now) = (true, now)
event (in' task now) = (false, now)

unfoldable pub trace : ℤ → List Switch → Trace
trace k [] = []
trace k (s ∷ ss) =
    if (task_of s).rt_priority == 10 && eq_ℤ (task_of s).pid k
    then event s ∷ trace k ss
    else trace k ss

-- The trace of a thread that leaves the processor and comes back, again and again.
abbrev pub trace_of : List Stay → Trace
trace_of [] = []
trace_of (s ∷ ss) = (true, s.from) ∷ (false, s.to) ∷ trace_of ss

module _ (api : TimerApi) where
  abbrev pub apply_event : Bool × Clock → Data api → Data api
  apply_event (true, now) = pause api now
  apply_event (false, now) = resume api now

  abbrev pub apply_trace : Trace → Data api → Data api
  apply_trace [] t = t
  apply_trace (e ∷ es) t = apply_trace es (apply_event e t)

  effect-event : (s : Switch) (t : Data api) → effect api s t ≡ apply_event (event s) t
  effect-event (out task now) t = refl
  effect-event (in' task now) t = refl

  pub replay-trace :
      (k : ℤ) (ss : List Switch) (t : Data api) → replay api k ss t ≡ apply_trace (trace k ss) t
  unfolding replay trace
  replay-trace k [] t = refl
  replay-trace k (s ∷ ss) t =
      elim (Bool-cases ((task_of s).rt_priority == 10 && eq_ℤ (task_of s).pid k)) [
        | inl e ↦ rw (e, effect-event s t) (replay-trace k ss _)
        | inr e ↦ rw e (replay-trace k ss t)
      ]

  apply_trace-aways : (ss : List Stay) (t : Data api) → apply_trace (trace_of ss) t ≡ aways api ss t
  apply_trace-aways [] t = refl
  apply_trace-aways (s ∷ ss) t = apply_trace-aways ss (away api s t)

  -- Stays of a thread, however the switches of other threads lie between.
  pub replay-aways :
      (k : ℤ) (ss : List Switch) (stays : List Stay) (t : Data api)
      → trace k ss ≡ trace_of stays
      → replay api k ss t ≡ aways api stays t
  replay-aways k ss stays t e = replay-trace k ss t ∙ rw e (apply_trace-aways stays t)

  -- No switch writes the flags.
  record SameFlags (t t' : Data api) : Type 0 where
    set : t'.timer_set ≡ t.timer_set
    triggered : t'.timer_triggered ≡ t.timer_triggered

  apply_event-SameFlags : (e : Bool × Clock) (t : Data api) → SameFlags t (apply_event e t)
  unfolding pause resume
  apply_event-SameFlags (true, now) t = ground arith
  apply_event-SameFlags (false, now) t = ground arith

  apply_trace-SameFlags : (es : Trace) (t : Data api) → SameFlags t (apply_trace es t)
  apply_trace-SameFlags [] t = record { set = refl; triggered = refl }
  apply_trace-SameFlags (e ∷ es) t =
      let h = apply_event-SameFlags e t in
      let hs = apply_trace-SameFlags es (apply_event e t) in
      record { set = hs.set ∙ h.set; triggered = hs.triggered ∙ h.triggered }

  pub replay-timer_set :
      (k : ℤ) (ss : List Switch) (t : Data api) → (replay api k ss t).timer_set ≡ t.timer_set
  replay-timer_set k ss t = rw (replay-trace k ss t) ((apply_trace-SameFlags (trace k ss) t).set)

  pub replay-IsTimed :
      (k : ℤ) (ss : List Switch) (t : Data api) → IsTimed t → IsTimed (replay api k ss t)
  replay-IsTimed k ss t h =
      let f = apply_trace-SameFlags (trace k ss) t in
      rw (replay-trace k ss t) (record { set = f.set ∙ h.set; running = f.triggered ∙ h.running })
