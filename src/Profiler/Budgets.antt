-- ===== src/Profiler/Budgets.antt =====
-- What the borders of regions come to in the module: the budget of the region that begins.
pub mod Armed
pub mod Kept
use ttex_kernel.Common.{
  >>=-eq-ok, subst, ℕ, ◌+◌, ◌/◌, ◌%◌, ◌^◌, ◌≤◌, ◌<◌, ◌≡◌, refl, true, false, some, List, [], ◌∷◌,
  arith, ◌∙◌, ℤ, pos, ok, Outcome,
}
use ttex_kernel.Timer.{TimerApi, IsTimerApi, add64, u64_mod, u32_mod}
use ttex_kernel.ThreadMap.{Ptr}
use ttex_kernel.ThreadMap.Chain.{Entries}
use ttex_kernel.ThreadMap.Refine.{IsMap}
use ttex_kernel.ThreadMap.Info.{info_at}
use ttex_kernel.Driver.{Data, State, UpdatedTimer}
use ttex_kernel.Driver.Ioctl.{mod_timer_new, budget, etx_ioctl}
use ttex_kernel.Driver.Switch.{IsTimed, Stay, aways, aways-IsTimed}
use ttex_kernel.Driver.Isolation.{Switch, InRange, run_switches, run_switches-replay, replay}
use ttex_kernel.Driver.Trace.{trace, trace_of, replay-aways, replay-IsTimed}
use ttex_kernel.Driver.Commands.{mod_timer_new-budget}
use ttex_kernel.Driver.Running.{AreForward, off_jiffies, Queued, aways-Queued, budget_running}
use ttex_kernel.Device.{IoctlApi, IsIoctlApi, update_call, file_call}
use ttex_kernel.Device.Numbers.{tool_get_timer_unheard}
use ttex_kernel.Tools.Session.{AreApart, Window, sends, copied}
use ttex_kernel.Tools.Calls.{decodes_new}
use ttex_kernel.Timespec.{Timespec}
use ttex_kernel.Profiler.{
  TimeoutNode, LoopDetails, ThreadInfo, Call, get_timer, reset_timer, Border, is_none, region_of,
  ompt_test,
}
use ttex_kernel.Profiler.Regions.{Running, cross-Running}
use ttex_kernel.Profiler.Session.{run_call, run_calls}

-- The budget that `resetTimer` sends.
abbrev pub sent_budget : (tid : ℤ) (nsec : ℕ) → Call
sent_budget tid nsec = Call.mod_timer_new (record { id = tid; time_val = nsec / 100000 })

reset_timer-budget :
    (tid : ℤ) (t : Timespec) (nsec : ℕ)
    → t.tv_nsec ≡ pos nsec
    → nsec < 2 ^ 63
    → reset_timer tid t ≡ sent_budget tid nsec
unfolding reset_timer
reset_timer-budget tid t nsec e small = rw e (ground arith)

-- The calls of `ompt_test` where the last region runs and the new one is known.
module _ (loop_execution : List (List LoopDetails)) (value_at : Ptr → Outcome ℕ) where
  pub border_calls :
      (info : ThreadInfo) (tid : ℤ) (b : Border) (n : TimeoutNode) (nsec : ℕ)
      → Running info.thread_current_timeout
      → is_none b ≡ false
      → region_of loop_execution value_at info b ≡ ok n
      → n.wcet.tv_nsec ≡ pos nsec
      → nsec < 2 ^ 63
      → (info' : ThreadInfo) × (ompt_test loop_execution value_at info tid b
          ≡ ok (info', get_timer ∷ get_timer ∷ sent_budget tid nsec ∷ []))
  unfolding ompt_test
  border_calls info tid b n nsec run some_id region budget_of small =
      let (info', e, _, _) = cross-Running info n tid b.stop b.start run in
      (
        info',
        rw (some_id, region, e) (rw (reset_timer-budget tid n.wcet nsec budget_of small) refl),
      )

module _ (codes : IoctlApi) (laws : IsIoctlApi codes) (apart : AreApart codes) (api : TimerApi)
    (timers : IsTimerApi api) where
  open api use {expires, timer_pending}

  -- A timed thread of the map.
  pub record Timed (es : Entries) (tid : ℤ) (t : Data api) (d : State api) : Type 0 where
    pub is : IsMap d.thread_map es
    pub there : info_at d.thread_map tid ≡ ok (some t)
    pub timed : IsTimed t

  pub switched :
      (es : Entries) (tid : ℤ) (t : Data api) (d : State api) (ss : List Switch)
      → InRange ss
      → Timed es tid t d
      → (d' : State api) × (run_switches api d ss ≡ ok d') × Timed es tid (replay api tid ss t) d'
  switched es tid t d ss r a =
      let (d', e, is', g) = run_switches-replay api d es ss tid t a.is r a.there in
      (d', e, record { is = is'; there = g; timed = replay-IsTimed api tid ss t a.timed })

  pub get_timer-quiet :
      (w : Window api.TimerList) (d : State api) → run_call codes api w d get_timer ≡ ok d
  unfolding run_call
  get_timer-quiet w d =
      rw
        (tool_get_timer_unheard codes laws api (λ s. run_switches api s w.during) d w.task w.now
          (sends w (pos 0) (record { id = pos 0; time_val = 0 })))
        refl

  pub mod_timer_new-heard :
      (w : Window api.TimerList) (d d' : State api) (u : UpdatedTimer)
      → mod_timer_new api (λ s. run_switches api s w.during) d (copied u) ≡ ok d'
      → run_call codes api w d (Call.mod_timer_new u) ≡ ok d'
  unfolding run_call update_call file_call etx_ioctl
  mod_timer_new-heard w d d' u e = rw (decodes_new codes apart (sends w u.id u)) (rw e refl)

  -- The three calls, with the switches behind them; the last one leaves `d2` when it returns.
  pub three_calls :
      (ws : ℕ → Window api.TimerList) (d d1 d2 d3 d4 : State api) (tid : ℤ) (nsec : ℕ)
      → run_switches api d (ws 0).after ≡ ok d1
      → run_switches api d1 (ws 1).after ≡ ok d2
      → run_call codes api (ws 2) d2 (sent_budget tid nsec) ≡ ok d3
      → run_switches api d3 (ws 2).after ≡ ok d4
      → run_calls codes api ws 0 d (get_timer ∷ get_timer ∷ sent_budget tid nsec ∷ []) ≡ ok d4
  unfolding run_calls
  three_calls ws d d1 d2 d3 d4 tid nsec e1 e2 e3 e4 =
      rw (get_timer-quiet (ws 0) d)
        (rw e1 (rw (get_timer-quiet (ws 1) d1) (rw e2 (rw e3 (rw e4 refl)))))
