-- ===== src/Driver/Timing.antt =====
-- Whole histories of one thread: the time that it is told that it ran, and the budget of its timer.
use ttex_kernel.Common.{
  ℕ, ◌+◌, ◌%◌, ◌<◌, ◌≡◌, true, false, some, List, [], ◌∷◌, arith, ◌∙◌, ok, ℤ, ne→==,
}
use ttex_kernel.Timer.{TimerApi, IsTimerApi, Clock, Copied, add64, u32_mod}
use ttex_kernel.ThreadMap.Chain.{Entries}
use ttex_kernel.ThreadMap.Refine.{IsMap}
use ttex_kernel.ThreadMap.Info.{info_at}
use ttex_kernel.Driver.{Data, State, UpdatedTimer, ReceiveTimer}
use ttex_kernel.Driver.Ioctl.{budget, measure, mod_timer_new, get_timer}
use ttex_kernel.Driver.Switch.{
  IsTimed, Stay, away, aways, InOrder, off_time, measured_time, away-new_budget, away-IsTimed,
}
use ttex_kernel.Driver.Isolation.{Switch, InRange, run_switches, replay, run_switches-replay}
use ttex_kernel.Driver.Trace.{trace, trace_of, replay-aways}
use ttex_kernel.Driver.Commands.{get_timer-measure, mod_timer_new-budget}

abbrev pub ask : ℤ → ℕ → Copied ReceiveTimer
ask k sub = record {
  content = record { id = k; time_val_to_sub = sub; time_val = 0 };
  failed = false;
}

module _ (api : TimerApi) where
  -- What GET_TIMER answers about a region of code: the question at its start, switches of any
  -- threads, and the question at its end with the first answer to subtract.
  pub record Queried (d : State api) (k : ℤ) (begin end : Clock) (ss : List Switch) (answer : ℕ)
      : Type 0 where
    pub asked : State api
    pub ran : State api
    pub done : State api
    pub first : ReceiveTimer
    pub last : ReceiveTimer
    pub at_start : get_timer api d begin (ask k 0) ≡ ok (asked, some first)
    pub between : run_switches api asked ss ≡ ok ran
    pub at_end : get_timer api ran end (ask k first.time_val) ≡ ok (done, some last)
    pub told : last.time_val ≡ answer

module _ (api : TimerApi) (laws : IsTimerApi api) where
  region_runs :
      (d : State api) (es : Entries) (k : ℤ) (t : Data api) (begin end : Clock) (ss : List Switch)
      (stays : List Stay)
      → IsMap d.thread_map es
      → info_at d.thread_map k ≡ ok (some t)
      → InRange ss
      → trace k ss ≡ trace_of stays
      → Queried api d k begin end ss
          (measure api end
            (measure api begin 0 t).executed_time
            (aways api stays (measure api begin 0 t))).executed_time
  region_runs d es k t begin end ss stays is there range own =
      let (d1, e1, up1) = get_timer-measure api d begin (ask k 0) t there in
      let (d2, e2, is2, g2) =
        run_switches-replay api d1 es ss k (measure api begin 0 t) (up1.keeps es is) range
          up1.there in
      let t2 = replay api k ss (measure api begin 0 t) in
      let (d3, e3, up3) =
        get_timer-measure api d2 end (ask k (measure api begin 0 t).executed_time) t2 g2 in
      record {
        asked = d1;
        ran = d2;
        done = d3;
        first = _;
        last = _;
        at_start = e1;
        between = e2;
        at_end = e3;
        told = rw (replay-aways api k ss stays (measure api begin 0 t) own);
      }

  -- For a timed thread of the map whose key is k, let GET_TIMER with 0 be called at a reading of
  -- the clock that is not 0, then any switches whose thread ids have a place in the array happen,
  -- and GET_TIMER be called with the answer of the first call. If the thread's own switches are
  -- stays off the processor, in the order of the clock and within 64 bits, then all calls succeed
  -- and the answer of the last one is the time between the calls less the time of the stays,
  -- however the switches of other threads lie between.
  pub region_time :
      (d : State api) (es : Entries) (k : ℤ) (t : Data api) (begin end : Clock) (ss : List Switch)
      (stays : List Stay)
      → IsMap d.thread_map es
      → info_at d.thread_map k ≡ ok (some t)
      → IsTimed t
      → InRange ss
      → trace k ss ≡ trace_of stays
      → 0 < begin.ktime
      → InOrder begin.ktime stays end.ktime
      → (answer : ℕ) × Queried api d k begin end ss answer
        × (answer + off_time stays + begin.ktime ≡ end.ktime)
  region_time d es k t begin end ss stays is there timed range own start order = (
    _,
    region_runs d es k t begin end ss stays is there range own,
    measured_time api laws begin end stays t timed start order,
  )

  -- The yield of MOD_TIMER_NEW, with the map and the flags that it leaves.
  pub budget_armed :
      (d : State api) (es : Entries) (req : Copied UpdatedTimer) (t : Data api) (ss : List Switch)
      (stay : Stay)
      → IsMap d.thread_map es
      → info_at d.thread_map req.content.id ≡ ok (some t)
      → IsTimed t
      → 0 < req.content.time_val
      → InRange ss
      → trace req.content.id ss ≡ trace_of (stay ∷ [])
      → (d' : State api) × (t' : Data api) × (mod_timer_new api (λ s. run_switches api s ss) d req
          ≡ ok d')
        × (info_at d'.thread_map req.content.id ≡ ok (some t'))
        × (api.timer_pending t'.thread_timer ≡ true)
        × (api.expires t'.thread_timer
            ≡ add64 stay.to.jiffies (api.msecs_to_jiffies (req.content.time_val % u32_mod)))
        × (t'.mod_msecs ≡ 0)
        × IsMap d'.thread_map es
        × IsTimed t'
  budget_armed d es req t ss stay is there timed budgeted range own =
      let k = req.content.id in
      let (m', up, e) = mod_timer_new-budget api (λ s. run_switches api s ss) d req t there in
      let b = budget api req.content.time_val t in
      let timed' : IsTimed b = record { set = timed.set; running = timed.running } in
      let (d2, e2, is2, g2) =
        run_switches-replay api (record d { thread_map = m' }) es ss k b (up.keeps es is) range
          up.there in
      let (armed, count, used) =
        away-new_budget api laws stay t req.content.time_val timed budgeted in
      (
        d2,
        away api stay b,
        rw e (rw (ne→== req.content.time_val 0 (omega arith)) e2),
        g2 ∙ rw (replay-aways api k ss (stay ∷ []) b own),
        armed,
        count,
        used,
        is2,
        away-IsTimed api laws stay b timed',
      )

  -- MOD_TIMER_NEW with a budget other than 0 for a timed thread of the map, where `schedule()` is
  -- any switches with ids that have a place in the array and with one stay of the thread off the
  -- processor: the call succeeds, and then the thread's timer is queued, expires the budget's
  -- jiffies (of its low 32 bits) after the switch in, and the pending budget is back to 0.
  mod_timer_new-armed :
      (d : State api) (es : Entries) (req : Copied UpdatedTimer) (t : Data api) (ss : List Switch)
      (stay : Stay)
      → IsMap d.thread_map es
      → info_at d.thread_map req.content.id ≡ ok (some t)
      → IsTimed t
      → 0 < req.content.time_val
      → InRange ss
      → trace req.content.id ss ≡ trace_of (stay ∷ [])
      → (d' : State api) × (t' : Data api) × (mod_timer_new api (λ s. run_switches api s ss) d req
          ≡ ok d')
        × (info_at d'.thread_map req.content.id ≡ ok (some t'))
        × (api.timer_pending t'.thread_timer ≡ true)
        × (api.expires t'.thread_timer
            ≡ add64 stay.to.jiffies (api.msecs_to_jiffies (req.content.time_val % u32_mod)))
        × (t'.mod_msecs ≡ 0)
  mod_timer_new-armed d es req t ss stay is there timed budgeted range own =
      let (d', t', e, g, armed, count, used, _, _) =
        budget_armed d es req t ss stay is there timed budgeted range own in
      (d', t', e, g, armed, count, used)
