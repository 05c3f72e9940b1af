-- ===== src/Profiler/Budgets/Kept.antt =====
-- A border to a region whose budget comes to 0.
use ttex_kernel.Common.{
  subst, ℕ, ◌+◌, ◌/◌, ◌%◌, ◌<◌, ◌≡◌, refl, false, some, List, arith, ◌∙◌, ℤ, pos, ok, Outcome,
}
use ttex_kernel.Timer.{TimerApi, IsTimerApi, add64, u64_mod}
use ttex_kernel.ThreadMap.{Ptr}
use ttex_kernel.ThreadMap.Chain.{Entries}
use ttex_kernel.ThreadMap.Refine.{IsMap}
use ttex_kernel.ThreadMap.Info.{info_at}
use ttex_kernel.Driver.{Data, State, UpdatedTimer}
use ttex_kernel.Driver.Ioctl.{budget}
use ttex_kernel.Driver.Switch.{Stay, aways}
use ttex_kernel.Driver.Isolation.{Switch, InRange, run_switches, run_switches-replay}
use ttex_kernel.Driver.Trace.{trace, trace_of, replay-aways}
use ttex_kernel.Driver.Commands.{mod_timer_new-budget}
use ttex_kernel.Driver.Running.{AreForward, off_jiffies, Queued, aways-Queued}
use ttex_kernel.Device.{IoctlApi, IsIoctlApi}
use ttex_kernel.Tools.Session.{AreApart, Window, copied}
use ttex_kernel.Profiler.{
  TimeoutNode, LoopDetails, ThreadInfo, Call, Border, is_none, region_of, ompt_test,
}
use ttex_kernel.Profiler.Regions.{Running}
use ttex_kernel.Profiler.Session.{run_calls}
use ttex_kernel.Profiler.Budgets.{border_calls, mod_timer_new-heard, three_calls}

module _ (codes : IoctlApi) (laws : IsIoctlApi codes) (apart : AreApart codes) (api : TimerApi)
    (timers : IsTimerApi api) (loop_execution : List (List LoopDetails))
    (value_at : Ptr → Outcome ℕ) (ws : ℕ → Window api.TimerList)
    (range : (i : ℕ) → InRange (ws i).during × InRange (ws i).after) where
  open api use {expires, timer_pending}

  -- Stays of a thread whose timer is queued.
  stayed :
      (es : Entries) (tid : ℤ) (t : Data api) (e : ℕ) (d : State api) (ss : List Switch)
      (stays : List Stay)
      → InRange ss
      → IsMap d.thread_map es
      → info_at d.thread_map tid ≡ ok (some t)
      → Queued api timers t e
      → trace tid ss ≡ trace_of stays
      → AreForward stays
      → (d' : State api) × (t' : Data api) × (run_switches api d ss ≡ ok d')
        × IsMap d'.thread_map es
        × (info_at d'.thread_map tid ≡ ok (some t'))
        × Queued api timers t' (add64 e (off_jiffies stays))
  stayed es tid t e d ss stays r is there q own forward =
      let (d', ran, is', g) = run_switches-replay api d es ss tid t is r there in
      (
        d',
        aways api stays t,
        ran,
        is',
        g ∙ rw (replay-aways api tid ss stays t own) refl,
        aways-Queued api timers stays t e q forward,
      )

  -- `ompt_test` of ttex_profiler.h in the same setting, at the border to a region whose budget has
  -- less than 100000 nanoseconds in `tv_nsec`, whatever its seconds, in a timed thread with a
  -- queued timer and no budget pending, whose own switches behind the calls are stays: the function
  -- and its calls succeed, and the timer of the region before stays queued, its expiry put back by
  -- no more than the stays, modulo 2 ^ 64.
  pub border_kept :
      (info : ThreadInfo) (tid : ℤ) (b : Border) (n : TimeoutNode) (nsec : ℕ) (d : State api)
      (es : Entries) (t : Data api) (expiry : ℕ) (stays0 stays1 stays2 : List Stay)
      → Running info.thread_current_timeout
      → is_none b ≡ false
      → region_of loop_execution value_at info b ≡ ok n
      → n.wcet.tv_nsec ≡ pos nsec
      → nsec < 100000
      → IsMap d.thread_map es
      → info_at d.thread_map tid ≡ ok (some t)
      → Queued api timers t expiry
      → trace tid (ws 0).after ≡ trace_of stays0
      → trace tid (ws 1).after ≡ trace_of stays1
      → trace tid (ws 2).after ≡ trace_of stays2
      → AreForward stays0
      → AreForward stays1
      → AreForward stays2
      → (info' : ThreadInfo) × (calls : List Call) × (d' : State api) × (t' : Data api) × (ompt_test
            loop_execution value_at info tid b
          ≡ ok (info', calls))
        × (run_calls codes api ws 0 d calls ≡ ok d')
        × (info_at d'.thread_map tid ≡ ok (some t'))
        × Queued api timers t'
            ((expiry + off_jiffies stays0 + off_jiffies stays1 + off_jiffies stays2) % u64_mod)
  border_kept info tid b n nsec d es t expiry stays0 stays1 stays2 run some_id region budget_of
        little is there q own0 own1 own2 fw0 fw1 fw2 =
      let (info', e) =
        border_calls loop_execution value_at info tid b n nsec run some_id region budget_of
          (omega arith) in
      let (d1, t1, e1, is1, there1, q1) =
        stayed es tid t expiry d (ws 0).after stays0 (range 0).1 is there q own0 fw0 in
      let (d2, t2, e2, is2, there2, q2) =
        stayed es tid t1 _ d1 (ws 1).after stays1 (range 1).1 is1 there1 q1 own1 fw1 in
      let u : UpdatedTimer = record { id = tid; time_val = nsec / 100000 } in
      let no_budget : u.time_val ≡ 0 = omega arith in
      let (m3, up, e3) =
        mod_timer_new-budget api (λ s. run_switches api s (ws 2).during) d2 (copied u) t2 there2 in
      let d3 = record d2 { thread_map = m3 } in
      let q3 : Queued api timers (budget api u.time_val t2) _ = record {
        timed = record { set = q2.timed.set; running = q2.timed.running };
        settled = no_budget;
        queued = q2.queued;
        expiry = q2.expiry;
        small = q2.small;
      } in
      let (d4, t4, e4, is4, there4, q4) =
        stayed es tid _ _ d3 (ws 2).after stays2 (range 2).1 (up.keeps es is2) up.there q3 own2
          fw2 in
      (
        info',
        _,
        d4,
        t4,
        e,
        three_calls codes laws apart api timers ws d d1 d2 d3 d4 tid nsec e1 e2
            (mod_timer_new-heard codes laws apart api timers (ws 2) d2 d3 u
              (e3 ∙ rw no_budget refl))
            e4,
        there4,
        subst (Queued api timers t4) (omega arith) q4,
      )
