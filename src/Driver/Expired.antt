-- ===== src/Driver/Expired.antt =====
-- A thread behind the expiry of its timer, and the way there from its budget.
use ttex_kernel.Common.{
  ℕ, ◌≡◌, refl, ◌∙◌, ◌<◌, true, some, List, [], ◌∷◌, arith, ◌==◌, ◌&&◌, eq_ℤ, ◌>>=◌, if◌then◌else◌,
  Outcome, ok, ℤ, pos, inl, inr, Bool-cases,
}
use ttex_kernel.Timer.{TimerApi, IsTimerApi, Copied}
use ttex_kernel.ThreadMap.{Ptr, max_threads, get}
use ttex_kernel.ThreadMap.Chain.{Entries}
use ttex_kernel.ThreadMap.Refine.{IsMap}
use ttex_kernel.ThreadMap.Info.{info_at}
use ttex_kernel.Driver.{Data, State, UpdatedTimer, pause, resume}
use ttex_kernel.Driver.Ioctl.{mod_timer_new, budget}
use ttex_kernel.Driver.Expiry.{timer_callback, trigger}
use ttex_kernel.Driver.Switch.{IsTimed, Stay}
use ttex_kernel.Driver.Isolation.{
  Switch, out, in', task_of, InRange, run_switches, run_switches-replay, effect, replay,
}
use ttex_kernel.Driver.Trace.{trace, trace_of}
use ttex_kernel.Driver.Commands.{mod_timer_new-budget}
use ttex_kernel.Driver.Timing.{budget_armed}
use ttex_kernel.Driver.Triggered.{timer_callback-trigger}

module _ (api : TimerApi) where
  effect_triggered : (s : Switch) (t : Data api) → t.timer_triggered ≡ true → effect api s t ≡ t
  unfolding pause resume
  effect_triggered (out task now) t h = ground arith
  effect_triggered (in' task now) t h = ground arith

  -- The switch handlers leave the data of a thread alone whose timer has expired.
  replay_triggered :
      (k : ℤ) (ss : List Switch) (t : Data api) → t.timer_triggered ≡ true → replay api k ss t ≡ t
  unfolding replay
  replay_triggered k [] t h = refl
  replay_triggered k (s ∷ ss) t h =
      let e : (if (task_of s).rt_priority == 10 && eq_ℤ (task_of s).pid k
            then effect api s t
            else t)
          ≡ t =
        ground (arith, effect_triggered s t h) in
      rw e (replay_triggered k ss t h)

  -- MOD_TIMER_NEW with any budget for a thread of the map whose `timer_triggered` is 1, with
  -- switches whose ids have a place in the array while it yields and behind it: all succeed, and
  -- then the thread's timer is as it was and the budget is still pending.
  pub triggered_unarmed :
      (d : State api) (es : Entries) (req : Copied UpdatedTimer) (t : Data api)
      (during after : List Switch)
      → IsMap d.thread_map es
      → info_at d.thread_map req.content.id ≡ ok (some t)
      → t.timer_triggered ≡ true
      → InRange during
      → InRange after
      → (d' : State api) × (t' : Data api) × ((mod_timer_new api
              (λ s. run_switches api s during)
              d
              req
            >>= λ d1. run_switches api d1 after)
          ≡ ok d')
        × (info_at d'.thread_map req.content.id ≡ ok (some t'))
        × (t'.thread_timer ≡ t.thread_timer)
        × (t'.mod_msecs ≡ req.content.time_val)
  triggered_unarmed d es req t during after is there fired now later =
      let k = req.content.id in
      let b = budget api req.content.time_val t in
      let schedule : State api → Outcome (State api) = λ s. run_switches api s during in
      let (m', up, e) = mod_timer_new-budget api schedule d req t there in
      let stored = record d { thread_map = m' } in
      let (d1, e1, is1, g1) =
        run_switches-replay api stored es during k b (up.keeps es is) now up.there in
      let g1' = g1 ∙ rw (replay_triggered k during b fired) in
      let (d2, e2, _, g2) = run_switches-replay api d1 es after k b is1 later g1' in
      let (d3, e3, _, g3) =
        run_switches-replay api stored es after k b (up.keeps es is) later up.there in
      elim (Bool-cases (req.content.time_val == 0)) [
        | inl z ↦ (d3, b, rw e (rw z e3), g3 ∙ rw (replay_triggered k after b fired), refl, refl)
        | inr z ↦
            (d2, b, rw e (rw z (rw e1 e2)), g2 ∙ rw (replay_triggered k after b fired), refl, refl)
      ]

module _ (api : TimerApi) (laws : IsTimerApi api) where
  -- MOD_TIMER_NEW with a budget other than 0 for a timed thread of the map with an id from 0 to 49,
  -- where `schedule()` is any switches with ids that have a place in the array and with one stay of
  -- the thread off the processor: its timer is queued, and when that timer expires,
  -- `timer_callback` sets the thread's `timer_triggered`.
  pub budget_triggers :
      (d : State api) (es : Entries) (req : Copied UpdatedTimer) (k : ℕ) (t : Data api)
      (ss : List Switch) (stay : Stay)
      → IsMap d.thread_map es
      → req.content.id ≡ pos k
      → k < max_threads
      → info_at d.thread_map (pos k) ≡ ok (some t)
      → IsTimed t
      → 0 < req.content.time_val
      → InRange ss
      → trace (pos k) ss ≡ trace_of (stay ∷ [])
      → (d1 d2 : State api) × (t1 t2 : Data api) × (fired : Ptr) × (mod_timer_new api
            (λ s. run_switches api s ss)
            d
            req
          ≡ ok d1)
        × (info_at d1.thread_map (pos k) ≡ ok (some t1))
        × (api.timer_pending t1.thread_timer ≡ true)
        × (get d1.thread_map (pos k) ≡ ok (some fired))
        × (timer_callback d1 fired ≡ ok d2)
        × (info_at d2.thread_map (pos k) ≡ ok (some t2))
        × (t2.timer_triggered ≡ true)
  budget_triggers d es req k t ss stay is own small there timed budgeted range away_once =
      let (d1, t1, e1, g1, armed, _, _, is1, _) =
        budget_armed api laws d es req t ss stay is (rw own there) timed budgeted range
          (rw own away_once) in
      let g : info_at d1.thread_map (pos k) ≡ ok (some t1) = rw own at g1 in
      let (fired, d2, at, e2, up) = timer_callback-trigger d1 es k t1 is1 g small in
      (d1, d2, t1, trigger t1, fired, e1, g, armed, at, e2, up.there, refl)
