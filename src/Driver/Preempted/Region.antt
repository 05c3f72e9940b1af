-- ===== src/Driver/Preempted/Region.antt =====
-- What GET_TIMER answers about a region of code where its two calls are preempted in their midst.
use ttex_kernel.Common.{ℕ, ◌+◌, ◌≡◌, refl, some, List, arith, ok, ℤ, ◌<◌, ◌-◌, ne→==}
use ttex_kernel.Timer.{TimerApi, IsTimerApi, Clock, sub64, u64_mod}
use ttex_kernel.ThreadMap.Chain.{Entries}
use ttex_kernel.ThreadMap.Refine.{IsMap}
use ttex_kernel.ThreadMap.Info.{info_at}
use ttex_kernel.Driver.{Data, State, ReceiveTimer}
use ttex_kernel.Driver.Switch.{
  IsTimed, Stay, aways, InOrder, InOrder-lt, off_time, aways-total, aways-get_kern_time,
  aways-IsTimed,
}
use ttex_kernel.Driver.Isolation.{Switch, InRange, run_switches, run_switches-replay}
use ttex_kernel.Driver.Trace.{trace, trace_of, replay-aways}
use ttex_kernel.Driver.Timing.{ask}
use ttex_kernel.Driver.Preempted.{
  measure_first, measure_second, get_timer_preempted, get_timer_preempted-measured,
}

module _ (api : TimerApi) where
  -- What GET_TIMER answers about a region of code where both of its calls are preempted between
  -- their statements, the first by `ss0` and the last by `ss1`, with `ss` between the calls.
  pub record PreemptedQuery (d : State api) (k : ℤ) (begin end : Clock) (ss0 ss ss1 : List Switch)
      (answer : ℕ) : Type 0 where
    pub asked : State api
    pub ran : State api
    pub done : State api
    pub first : ReceiveTimer
    pub last : ReceiveTimer
    pub at_start :
        get_timer_preempted api (λ s. run_switches api s ss0) d begin (ask k 0)
        ≡ ok (asked, some first)
    pub between : run_switches api asked ss ≡ ok ran
    pub at_end :
        get_timer_preempted api (λ s. run_switches api s ss1) ran end (ask k first.time_val)
        ≡ ok (done, some last)
    pub told : last.time_val ≡ answer

  -- The data of the thread along such a query.
  abbrev first_data : Clock → List Stay → Data api → Data api
  first_data begin stays0 t =
      measure_second api begin 0 (aways api stays0 (measure_first api begin 0 t))

  abbrev last_data : Clock → ℕ → List Stay → List Stay → Data api → Data api
  last_data end sub stays stays1 t =
      measure_second api end sub (aways api stays1 (measure_first api end sub (aways api stays t)))

  query_runs :
      (d : State api) (es : Entries) (k : ℤ) (t : Data api) (begin end : Clock)
      (ss0 ss ss1 : List Switch) (stays0 stays stays1 : List Stay)
      → IsMap d.thread_map es
      → info_at d.thread_map k ≡ ok (some t)
      → InRange ss0
      → InRange ss
      → InRange ss1
      → trace k ss0 ≡ trace_of stays0
      → trace k ss ≡ trace_of stays
      → trace k ss1 ≡ trace_of stays1
      → let t1 = first_data begin stays0 t in
        PreemptedQuery d k begin end ss0 ss ss1
          (last_data end t1.executed_time stays stays1 t1).executed_time
  query_runs d es k t begin end ss0 ss ss1 stays0 stays stays1 is there r0 r r1 own0 own own1 =
      let (d1, e1, is1, there1) =
        get_timer_preempted-measured api d es begin (ask k 0) t ss0 is there r0 in
      let (d2, e2, is2, there2) = run_switches-replay api d1 es ss k _ is1 r there1 in
      let (d3, e3, _, _) =
        get_timer_preempted-measured api d2 es end (ask k _) _ ss1 is2 there2 r1 in
      record {
        asked = d1;
        ran = d2;
        done = d3;
        first = _;
        last = _;
        at_start = e1;
        between = e2;
        at_end = e3;
        told = rw (
          replay-aways api k ss0 stays0 (measure_first api begin 0 t) own0,
          replay-aways api k ss stays _ own,
          replay-aways api k ss1 stays1 _ own1,
        );
      }

module _ (api : TimerApi) (laws : IsTimerApi api) where
  first_data-total :
      (a : ℕ) (begin : Clock) (stays0 : List Stay) (t : Data api)
      → IsTimed t
      → InOrder a stays0 begin.ktime
      → IsTimed (first_data api begin stays0 t)
        × ((first_data api begin stays0 t).total_paused_time ≡ off_time stays0)
        × ((first_data api begin stays0 t).executed_time ≡ begin.ktime)
  unfolding measure_first measure_second
  first_data-total a begin stays0 t h o =
      let t0 = measure_first api begin 0 t in
      let h0 : IsTimed t0 = record { set = h.set; running = h.running } in
      let h1 = aways-IsTimed api laws stays0 t0 h0 in
      (
        record { set = h1.set; running = h1.running },
        omega (
          arith,
          aways-total api laws a begin.ktime stays0 t0 h0 o
              (omega (arith, InOrder-lt a stays0 begin.ktime o)),
        ),
        refl,
      )

  last_data-executed :
      (b : ℕ) (begin end : Clock) (sub : ℕ) (stays stays1 : List Stay) (t : Data api)
      → IsTimed t
      → 0 < sub
      → InOrder begin.ktime stays end.ktime
      → InOrder end.ktime stays1 b
      → t.total_paused_time + off_time stays + off_time stays1 < u64_mod
      → (last_data api end sub stays stays1 t).executed_time
        ≡ sub64 (sub64 end.ktime sub) (t.total_paused_time + off_time stays + off_time stays1)
  unfolding measure_first measure_second
  last_data-executed b begin end sub stays stays1 t h some_sub o o1 fits =
      let t1 = aways api stays t in
      let h1 = aways-IsTimed api laws stays t h in
      let t2 = record t1 { get_kern_time = end.ktime } in
      let h2 : IsTimed t2 = record { set = h1.set; running = h1.running } in
      let total1 = aways-total api laws begin.ktime end.ktime stays t h o (omega arith) in
      let total2 = aways-total api laws end.ktime b stays1 t2 h2 o1 (omega (arith, total1)) in
      rw (ne→== sub 0 (omega arith), aways-get_kern_time api laws stays1 t2, total2, total1) refl

  -- The question about a region of `region_time`, where each of its two calls is also preempted
  -- between its statements: at the first behind the reset of the paused time and before the reading
  -- of the clock, at the last behind the reading. If the thread's own switches are stays in the
  -- order of the clock there too, then all succeed, and the answer is the time between the readings
  -- less the time of all the stays, modulo 2 ^ 64: those outside the readings are subtracted as
  -- well.
  pub region_preempted :
      (d : State api) (es : Entries) (k : ℤ) (t : Data api) (a b : ℕ) (begin end : Clock)
      (ss0 ss ss1 : List Switch) (stays0 stays stays1 : List Stay)
      → IsMap d.thread_map es
      → info_at d.thread_map k ≡ ok (some t)
      → IsTimed t
      → InRange ss0
      → InRange ss
      → InRange ss1
      → trace k ss0 ≡ trace_of stays0
      → trace k ss ≡ trace_of stays
      → trace k ss1 ≡ trace_of stays1
      → 0 < begin.ktime
      → InOrder a stays0 begin.ktime
      → InOrder begin.ktime stays end.ktime
      → InOrder end.ktime stays1 b
      → (answer : ℕ) × PreemptedQuery api d k begin end ss0 ss ss1 answer
        × (answer
            ≡ sub64 (end.ktime - begin.ktime) (off_time stays0 + off_time stays + off_time stays1))
  region_preempted d es k t a b begin end ss0 ss ss1 stays0 stays stays1 is there timed r0 r r1 own0
        own own1 start o0 o o1 =
      let t1 = first_data api begin stays0 t in
      let (h1, total, executed) = first_data-total a begin stays0 t timed o0 in
      let lt0 = InOrder-lt a stays0 begin.ktime o0 in
      let lt = InOrder-lt begin.ktime stays end.ktime o in
      let lt1 = InOrder-lt end.ktime stays1 b o1 in
      let reported =
        last_data-executed b begin end t1.executed_time stays stays1 t1 h1 (omega (arith, executed))
          o o1 (omega (arith, total, lt0, lt, lt1)) in
      (
        _,
        query_runs api d es k t begin end ss0 ss ss1 stays0 stays stays1 is there r0 r r1 own0 own
            own1,
        omega (arith, reported, total, executed, lt0, lt, lt1),
      )
