-- ===== src/Driver/Preempted/Budget.antt =====
-- MOD_TIMER_NEW of ttex_kernel_update.c preempted between its store and its test: the test is there
-- to tell whether a switch has seen the budget already.
use ttex_kernel.Common.{
  ◌≡◌, refl, none, some, List, ◌∷◌, arith, ◌==◌, ◌>>=◌, Outcome, ok, if◌then◌else◌, ◌∙◌, ◌<◌, ne→==,
}
use ttex_kernel.Timer.{TimerApi, IsTimerApi, Copied}
use ttex_kernel.ThreadMap.{get, deref}
use ttex_kernel.ThreadMap.Chain.{Entries}
use ttex_kernel.ThreadMap.Refine.{IsMap}
use ttex_kernel.ThreadMap.Info.{info_at, write_info, get-write_info}
use ttex_kernel.ThreadMap.Write.{write_info-found, deref-found}
use ttex_kernel.Driver.{Data, State, UpdatedTimer}
use ttex_kernel.Driver.Ioctl.{budget, mod_timer_new}
use ttex_kernel.Driver.Switch.{IsTimed, Stay, aways-mod_msecs}
use ttex_kernel.Driver.Isolation.{Switch, InRange, run_switches}
use ttex_kernel.Driver.Trace.{trace, trace_of, replay-aways}
use ttex_kernel.Driver.Preempted.{preempted-found}

module _ (api : TimerApi) where
  -- `preempt` is what happens between the store and the test.
  unfoldable pub mod_timer_new_preempted :
      (preempt schedule : State api → Outcome (State api))
      → State api
      → Copied UpdatedTimer
      → Outcome (State api)
  mod_timer_new_preempted preempt schedule d req = get d.thread_map req.content.id >>= elim [
    | none ↦ ok d
    | some p ↦
        preempt
          (record d { thread_map = write_info d.thread_map p (budget api req.content.time_val) })
        >>= λ d1. deref d1.thread_map.nodes p >>= λ n.
            if n.info.mod_msecs == 0 then ok d1 else schedule d1
  ]

  -- Where nothing happens between them, they are MOD_TIMER_NEW.
  mod_timer_new_unpreempted :
      (schedule : State api → Outcome (State api)) (d : State api) (req : Copied UpdatedTimer)
      → mod_timer_new_preempted ok schedule d req ≡ mod_timer_new api schedule d req
  unfolding mod_timer_new mod_timer_new_preempted
  mod_timer_new_unpreempted schedule d req = refl

module _ (api : TimerApi) (laws : IsTimerApi api) where
  -- For a timed thread of the map, a budget other than 0, and any switches with ids that have a
  -- place in the array, among them at least one stay of the thread off the processor and no other
  -- switch of it: whether these happen between the store and the test or while the command yields,
  -- MOD_TIMER_NEW succeeds with the same state, and in the first case it does not yield.
  pub preempted_budget :
      (schedule : State api → Outcome (State api)) (d : State api) (es : Entries)
      (req : Copied UpdatedTimer) (t : Data api) (ss : List Switch) (stay : Stay)
      (stays : List Stay)
      → IsMap d.thread_map es
      → info_at d.thread_map req.content.id ≡ ok (some t)
      → IsTimed t
      → 0 < req.content.time_val
      → InRange ss
      → trace req.content.id ss ≡ trace_of (stay ∷ stays)
      → (d' : State api) × (mod_timer_new_preempted api (λ s. run_switches api s ss) schedule d req
          ≡ ok d')
        × (mod_timer_new api (λ s. run_switches api s ss) d req ≡ ok d')
  unfolding mod_timer_new mod_timer_new_preempted
  preempted_budget schedule d es req t ss stay stays is there timed budgeted range own =
      let k = req.content.id in
      let b = budget api req.content.time_val t in
      let timed' : IsTimed b = record { set = timed.set; running = timed.running } in
      let (p, d1, g, e1, _, there1, g1) =
        preempted-found api d es k t (budget api req.content.time_val) ss is there range in
      let (up, _) = write_info-found d.thread_map k (budget api req.content.time_val) t p there g in
      let (n, l, en) =
        deref-found (write_info d.thread_map p (budget api req.content.time_val)) k b p up.there
          (get-write_info d.thread_map p (budget api req.content.time_val) k ∙ g) in
      let (n1, l1, en1) = deref-found d1.thread_map k _ p there1 g1 in
      let none_left : n1.info.mod_msecs ≡ 0 =
        rw (en1, replay-aways api k ss (stay ∷ stays) b own)
          (aways-mod_msecs api laws stay stays b timed') in
      (
        d1,
        rw g (rw e1 (rw (l1, none_left) refl)),
        rw g (rw l (rw (en, ne→== req.content.time_val 0 (omega arith)) e1)),
      )
