-- ===== src/Profiler/Budgets/Armed.antt =====
-- A border to a region whose budget is not 0.
use ttex_kernel.Common.{
  >>=-eq-ok, ℕ, ◌+◌, ◌/◌, ◌%◌, ◌^◌, ◌≤◌, ◌<◌, ◌≡◌, true, false, some, List, [], ◌∷◌, arith, ℤ, pos,
  ok, Outcome,
}
use ttex_kernel.Timer.{TimerApi, IsTimerApi, u64_mod, u32_mod}
use ttex_kernel.ThreadMap.{Ptr}
use ttex_kernel.ThreadMap.Chain.{Entries}
use ttex_kernel.ThreadMap.Refine.{IsMap}
use ttex_kernel.ThreadMap.Info.{info_at}
use ttex_kernel.Driver.{Data, State, UpdatedTimer}
use ttex_kernel.Driver.Ioctl.{mod_timer_new}
use ttex_kernel.Driver.Switch.{IsTimed, Stay}
use ttex_kernel.Driver.Isolation.{InRange, run_switches}
use ttex_kernel.Driver.Trace.{trace, trace_of}
use ttex_kernel.Driver.Running.{AreForward, off_jiffies, budget_running}
use ttex_kernel.Device.{IoctlApi, IsIoctlApi}
use ttex_kernel.Tools.Session.{AreApart, Window, copied}
use ttex_kernel.Profiler.{
  TimeoutNode, LoopDetails, ThreadInfo, Call, Border, is_none, region_of, ompt_test,
}
use ttex_kernel.Profiler.Regions.{Running}
use ttex_kernel.Profiler.Session.{run_calls}
use ttex_kernel.Profiler.Budgets.{border_calls, switched, mod_timer_new-heard, three_calls}

module _ (codes : IoctlApi) (laws : IsIoctlApi codes) (apart : AreApart codes) (api : TimerApi)
    (timers : IsTimerApi api) (loop_execution : List (List LoopDetails))
    (value_at : Ptr → Outcome ℕ) (ws : ℕ → Window api.TimerList)
    (range : (i : ℕ) → InRange (ws i).during × InRange (ws i).after) where
  open api use {expires, timer_pending}

  -- `ompt_test` of ttex_profiler.h in a thread that is timed in the module's map, with a running
  -- region, at the border to a region of the tables whose budget has from 100000 nanoseconds on in
  -- `tv_nsec`, whatever the structures of GET_TIMER hold behind the calls; the commands have
  -- different numbers that show their directions, behind each call there are switches with ids that
  -- have a place in the array, and MOD_TIMER_NEW yields in one stay of the thread off the processor
  -- and returns to any number of them, none backwards in jiffies: the function and, in the module,
  -- its calls succeed, and the thread's timer is queued and expires, modulo 2 ^ 64, as many
  -- milliseconds as `tv_nsec` has hundred thousands (of 32 bits), in jiffies, and the later stays
  -- after the switch in; the seconds of the budget do not count.
  pub border_armed :
      (info : ThreadInfo) (tid : ℤ) (b : Border) (n : TimeoutNode) (nsec : ℕ) (d : State api)
      (es : Entries) (t : Data api) (stay : Stay) (stays : List Stay)
      → Running info.thread_current_timeout
      → is_none b ≡ false
      → region_of loop_execution value_at info b ≡ ok n
      → n.wcet.tv_nsec ≡ pos nsec
      → nsec < 2 ^ 63
      → 100000 ≤ nsec
      → IsMap d.thread_map es
      → info_at d.thread_map tid ≡ ok (some t)
      → IsTimed t
      → trace tid (ws 2).during ≡ trace_of (stay ∷ [])
      → trace tid (ws 2).after ≡ trace_of stays
      → AreForward stays
      → (info' : ThreadInfo) × (calls : List Call) × (d' : State api) × (t' : Data api) × (ompt_test
            loop_execution value_at info tid b
          ≡ ok (info', calls))
        × (run_calls codes api ws 0 d calls ≡ ok d')
        × (info_at d'.thread_map tid ≡ ok (some t'))
        × (timer_pending t'.thread_timer ≡ true)
        × (expires t'.thread_timer
            ≡ (stay.to.jiffies
                + api.msecs_to_jiffies ((nsec / 100000) % u32_mod)
                + off_jiffies stays)
              % u64_mod)
  border_armed info tid b n nsec d es t stay stays run some_id region budget_of small enough is
        there timed once own forward =
      let (info', e) =
        border_calls loop_execution value_at info tid b n nsec run some_id region budget_of small in
      let (d1, e1, a1) =
        switched codes laws apart api timers es tid t d (ws 0).after (range 0).1
          (record { is = is; there = there; timed = timed }) in
      let (d2, e2, a2) =
        switched codes laws apart api timers es tid _ d1 (ws 1).after (range 1).1 a1 in
      let u : UpdatedTimer = record { id = tid; time_val = nsec / 100000 } in
      let (d4, t4, e3, there4, queued, expiry) =
        budget_running api timers d2 es (copied u) _ (ws 2).during (ws 2).after stay stays a2.is
          a2.there a2.timed (omega arith) (range 2).0 (range 2).1 once own forward in
      let (d3, commanded, behind) =
        >>=-eq-ok (mod_timer_new api (λ s. run_switches api s (ws 2).during) d2 (copied u)) _ e3 in
      (
        info',
        _,
        d4,
        t4,
        e,
        three_calls codes laws apart api timers ws d d1 d2 d3 d4 tid nsec e1 e2
            (mod_timer_new-heard codes laws apart api timers (ws 2) d2 d3 u commanded) behind,
        there4,
        queued,
        expiry,
      )
