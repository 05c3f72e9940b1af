-- ===== src/Driver/Preempted.antt =====
-- GET_TIMER of ttex_kernel_update.c in its two statements on the thread's data: the command runs in
-- the thread itself, and the kernel may preempt it between them, so that the handlers write in the
-- midst.
pub mod Region
pub mod Budget
pub mod Deletion
use std.Path.{fun_ext}
use ttex_kernel.Common.{
  fault, out_of_fuel, ap, ℕ, ◌+◌, ◌≡◌, refl, none, some, Option, List, arith, ◌==◌, ◌>>=◌, Outcome,
  ok, if◌then◌else◌, ℤ, ◌∙◌, ◌<◌, ◌-◌, ne→==, >>=-eq-ok, found-cases, inl, inr, sym,
}
use ttex_kernel.Timer.{TimerApi, IsTimerApi, Clock, Copied, sub64, u64_mod}
use ttex_kernel.ThreadMap.{ThreadMap, Ptr, get, deref}
use ttex_kernel.ThreadMap.Chain.{Entries}
use ttex_kernel.ThreadMap.Refine.{IsMap, get-find}
use ttex_kernel.ThreadMap.Lookup.{get-hash}
use ttex_kernel.ThreadMap.Info.{info_at, info_at-inv, write_info, Updated}
use ttex_kernel.ThreadMap.Write.{write_info-found, write_info-write_info}
use ttex_kernel.Driver.{Data, State, ReceiveTimer}
use ttex_kernel.Driver.Ioctl.{measure, get_timer}
use ttex_kernel.Driver.Switch.{
  IsTimed, Stay, aways, InOrder, InOrder-lt, off_time, aways-total, aways-get_kern_time,
  aways-IsTimed,
}
use ttex_kernel.Driver.Isolation.{Switch, InRange, run_switches, replay, run_switches-replay}
use ttex_kernel.Driver.Trace.{trace, trace_of, replay-aways}
use ttex_kernel.Driver.Timing.{ask}

module _ (api : TimerApi) where
  -- The first statement: the reset of the paused time, or the reading at the region's end.
  unfoldable pub measure_first : Clock → (time_val_to_sub : ℕ) → Data api → Data api
  measure_first now sub t =
      if sub == 0
      then record t { total_paused_time = 0 }
      else record t { get_kern_time = now.ktime }

  -- The second: the reading at the region's start, or the time executed.
  unfoldable pub measure_second : Clock → (time_val_to_sub : ℕ) → Data api → Data api
  measure_second now sub t =
      if sub == 0
      then record t { executed_time = now.ktime }
      else record t { executed_time = sub64 (sub64 t.get_kern_time sub) t.total_paused_time }

  -- `preempt` is what happens between the statements. The pointer is that of before.
  unfoldable pub get_timer_preempted :
      (preempt : State api → Outcome (State api))
      → State api
      → Clock
      → Copied ReceiveTimer
      → Outcome (State api × Option ReceiveTimer)
  get_timer_preempted preempt d now req = get d.thread_map req.content.id >>= elim [
    | none ↦ ok (d, none)
    | some p ↦
        let sub = req.content.time_val_to_sub in
        preempt (record d { thread_map = write_info d.thread_map p (measure_first now sub) })
        >>= λ d1.
            let m = write_info d1.thread_map p (measure_second now sub) in
            deref m.nodes p >>= λ n. ok (
              record d1 { thread_map = m },
              some (record (req.content) { time_val = n.info.executed_time }),
            )
  ]

  measure_split :
      (now : Clock) (sub : ℕ) (t : Data api)
      → measure_second now sub (measure_first now sub t) ≡ measure api now sub t
  unfolding measure measure_first measure_second
  measure_split now sub t = ground arith

  write_split :
      (m : ThreadMap api.TimerList) (p : Ptr) (now : Clock) (sub : ℕ)
      → write_info (write_info m p (measure_first now sub)) p (measure_second now sub)
        ≡ write_info m p (measure api now sub)
  write_split m p now sub =
      write_info-write_info m p (measure_second now sub) (measure_first now sub)
      ∙ ap (write_info m p) (fun_ext (measure_split now sub))

  -- Where nothing happens between them, the two statements are GET_TIMER.
  get_timer_unpreempted :
      (d : State api) (now : Clock) (req : Copied ReceiveTimer)
      → get_timer_preempted ok d now req ≡ get_timer api d now req
  unfolding get_timer get_timer_preempted
  get_timer_unpreempted d now req = elim (found-cases (get d.thread_map req.content.id)) [
    | inl e ↦ rw e refl
    | inr (inl e) ↦ rw e refl
    | inr (inr (inl e)) ↦ rw e refl
    | inr (inr (inr (p, e))) ↦
        rw e (rw (write_split d.thread_map p now req.content.time_val_to_sub) refl)
  ]

  -- A first statement `f` on a known thread's data, and switches behind it: the pointer that the
  -- command has looked up before stays the one of the thread.
  pub preempted-found :
      (d : State api) (es : Entries) (k : ℤ) (t : Data api) (f : Data api → Data api)
      (ss : List Switch)
      → IsMap d.thread_map es
      → info_at d.thread_map k ≡ ok (some t)
      → InRange ss
      → (p : Ptr) × (d1 : State api) × (get d.thread_map k ≡ ok (some p))
        × (run_switches api (record d { thread_map = write_info d.thread_map p f }) ss ≡ ok d1)
        × IsMap d1.thread_map es
        × (info_at d1.thread_map k ≡ ok (some (replay api k ss (f t))))
        × (get d1.thread_map k ≡ ok (some p))
  preempted-found d es k t f ss is there range =
      let (p, _, g, _, _, _, _) = info_at-inv d.thread_map k t there in
      let (i, h) = get-hash d.thread_map k _ g in
      let (up, _) = write_info-found d.thread_map k f t p there g in
      let (d1, e1, is1, there1) =
        run_switches-replay api (record d { thread_map = write_info d.thread_map p f }) es ss k
          (f t) (up.keeps es is) range up.there in
      (
        p,
        d1,
        g,
        e1,
        is1,
        there1,
        get-find d1.thread_map es k i is1 h ∙ sym (get-find d.thread_map es k i is h) ∙ g,
      )

  -- GET_TIMER of a known thread that is preempted by any switches.
  pub get_timer_preempted-measured :
      (d : State api) (es : Entries) (now : Clock) (req : Copied ReceiveTimer) (t : Data api)
      (ss : List Switch)
      → IsMap d.thread_map es
      → info_at d.thread_map req.content.id ≡ ok (some t)
      → InRange ss
      → let sub = req.content.time_val_to_sub in
        let t' = measure_second now sub (replay api req.content.id ss (measure_first now sub t)) in
        (d' : State api) × (get_timer_preempted (λ s. run_switches api s ss) d now req
          ≡ ok (d', some (record (req.content) { time_val = t'.executed_time })))
        × IsMap d'.thread_map es
        × (info_at d'.thread_map req.content.id ≡ ok (some t'))
  unfolding get_timer_preempted
  get_timer_preempted-measured d es now req t ss is there range =
      let k = req.content.id in
      let sub = req.content.time_val_to_sub in
      let (p, d1, g, e1, is1, there1, g1) =
        preempted-found d es k t (measure_first now sub) ss is there range in
      let (up1, r) =
        write_info-found d1.thread_map k (measure_second now sub)
          (replay api k ss (measure_first now sub t)) p there1 g1 in
      let (n1, l1, e2) =
        >>=-eq-ok (deref (write_info d1.thread_map p (measure_second now sub)).nodes p) _ r in
      (
        record d1 { thread_map = write_info d1.thread_map p (measure_second now sub) },
        rw g (rw e1 (rw l1 (ground arith))),
        up1.keeps es is1,
        up1.there,
      )
