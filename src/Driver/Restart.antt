-- ===== src/Driver/Restart.antt =====
-- Histories that begin or end with START_TIMER or DEL_TIMER: a deleted timer, an id that is started
-- again, and a thread that is switched before it has a budget.
use ttex_kernel.Common.{
  ℕ, ◌<◌, ◌≡◌, refl, ◌≢◌, ◌&&◌, true, false, none, some, List, [], ◌∷◌, arith, ◌==◌, ◌∙◌, ◌>>=◌,
  Outcome, ok, if◌then◌else◌, ℤ, pos, eq_ℤ,
}
use ttex_kernel.Timer.{TimerApi, IsTimerApi, Task, Copied, sub64, u64_mod}
use ttex_kernel.ThreadMap.{hash_function, Ptr, null, load}
use ttex_kernel.ThreadMap.Chain.{Entries, find}
use ttex_kernel.ThreadMap.Refine.{IsMap}
use ttex_kernel.ThreadMap.Lookup.{info_at-Inserted_old, info_at-Inserted_new, get-hash}
use ttex_kernel.ThreadMap.Info.{info_at, info_at-inv}
use ttex_kernel.Driver.{Data, State, pause, resume}
use ttex_kernel.Driver.Ioctl.{started, stopped, start_timer, del_timer}
use ttex_kernel.Driver.Switch.{IsTimed, Stay, away, away-budget}
use ttex_kernel.Driver.Isolation.{
  Switch, out, in', task_of, effect, InRange, run_switches, replay, run_switches-replay,
}
use ttex_kernel.Driver.Trace.{trace, trace_of, replay-aways}
use ttex_kernel.Driver.Commands.{del_timer-stopped, start_timer-started}

module _ (api : TimerApi) (laws : IsTimerApi api) where
  effect_unset : (s : Switch) (t : Data api) → t.timer_set ≡ false → effect api s t ≡ t
  unfolding pause resume
  effect_unset (out task now) t h = ground arith
  effect_unset (in' task now) t h = ground arith

  started_budget :
      (stay : Stay) (raw : Data api)
      → stay.to.jiffies < u64_mod
      → (api.timer_pending (away api stay (started api raw)).thread_timer ≡ true)
        × (sub64 (api.expires (away api stay (started api raw)).thread_timer) stay.to.jiffies
            ≡ sub64 (api.expires raw.thread_timer) stay.from.jiffies)
  unfolding started
  started_budget stay raw small =
      let timed : IsTimed (started api raw) = record { set = refl; running = refl } in
      let (armed, left) = away-budget api laws stay (started api raw) timed refl small in
      (armed, rw (laws.expires_of_setup) at left)

  -- The switch handlers leave the data of a thread alone whose `timer_set` is 0.
  pub replay_unset :
      (k : ℤ) (ss : List Switch) (t : Data api) → t.timer_set ≡ false → replay api k ss t ≡ t
  unfolding replay
  replay_unset k [] t h = refl
  replay_unset k (s ∷ ss) t h =
      let e : (if (task_of s).rt_priority == 10 && eq_ℤ (task_of s).pid k
            then effect api s t
            else t)
          ≡ t =
        ground (arith, effect_unset s t h) in
      rw e (replay_unset k ss t h)

  -- After DEL_TIMER for a thread of a map that stands for entries, any switches with ids that have
  -- a place in the array succeed and leave the thread's timer not queued and `timer_set` 0.
  pub deleted_stays :
      (d : State api) (es : Entries) (id : Copied ℤ) (t : Data api) (ss : List Switch)
      → IsMap d.thread_map es
      → info_at d.thread_map id.content ≡ ok (some t)
      → InRange ss
      → (d' : State api) × (t' : Data api) × ((del_timer api d id >>= λ d1. run_switches api d1 ss)
          ≡ ok d')
        × (info_at d'.thread_map id.content ≡ ok (some t'))
        × (api.timer_pending t'.thread_timer ≡ false)
        × (t'.timer_set ≡ false)
  deleted_stays d es id t ss is there range =
      let (d1, e1, up, _) = del_timer-stopped api d id t there in
      let (d2, e2, is2, g2) =
        run_switches-replay api d1 es ss id.content (stopped api t) (up.keeps es is) range
          up.there in
      (
        d2,
        stopped api t,
        rw e1 e2,
        g2 ∙ rw (replay_unset id.content ss (stopped api t) refl),
        laws.pending_of_del t.thread_timer,
        refl,
      )

  -- START_TIMER, with both allocations successful, of an id that is in the map already with
  -- `timer_set` 0: the call and any switches behind it with ids that have a place in the array
  -- succeed, and `get` of the id still leads to the old data, unchanged, so that the thread is not
  -- timed.
  pub restarted_stays :
      (schedule : State api → Outcome (State api)) (d : State api) (task : Task) (es : Entries)
      (id : Copied ℤ) (temp node : Ptr) (raw t : Data api) (ss : List Switch)
      → IsMap d.thread_map es
      → info_at d.thread_map id.content ≡ ok (some t)
      → t.timer_set ≡ false
      → temp ≢ null
      → node ≢ null
      → load d.thread_map.nodes node ≡ none
      → InRange ss
      → (d' : State api) × ((start_timer api schedule d task id temp raw node >>= λ d1.
            run_switches api d1 ss)
          ≡ ok d')
        × (info_at d'.thread_map id.content ≡ ok (some t))
  restarted_stays schedule d task es id temp node raw t ss is there unset nt nn unused range =
      let (p, n, g, _, _, _, _) = info_at-inv d.thread_map id.content t there in
      let (i, h) = get-hash d.thread_map id.content (some p) g in
      let (d1, e1, _, ins) =
        start_timer-started api schedule d task es id temp node raw i is nt nn unused h in
      let old =
        info_at-Inserted_old d.thread_map es id.content (started api raw) node d1.thread_map is ins
          id.content t there in
      let (d2, e2, is2, g2) = run_switches-replay api d1 _ ss id.content t ins.is range old in
      (d2, rw e1 e2, g2 ∙ rw (replay_unset id.content ss t unset))

  -- START_TIMER of an id that is new to the map, with both allocations successful, and behind it
  -- any switches with ids that have a place in the array and with one stay of the thread off the
  -- processor: all succeed, and the timer is then queued, without any MOD_TIMER_NEW, with the
  -- jiffies to go that follow from the expiry that the allocated block happened to hold.
  pub unbudgeted_armed :
      (schedule : State api → Outcome (State api)) (d : State api) (task : Task) (es : Entries)
      (id : Copied ℤ) (temp node : Ptr) (raw : Data api) (i : ℕ) (ss : List Switch) (stay : Stay)
      → IsMap d.thread_map es
      → find id.content es ≡ none
      → hash_function id.content ≡ pos i
      → temp ≢ null
      → node ≢ null
      → load d.thread_map.nodes node ≡ none
      → InRange ss
      → trace id.content ss ≡ trace_of (stay ∷ [])
      → stay.to.jiffies < u64_mod
      → (d' : State api) × (t' : Data api) × ((start_timer api schedule d task id temp raw node
            >>= λ d1. run_switches api d1 ss)
          ≡ ok d')
        × (info_at d'.thread_map id.content ≡ ok (some t'))
        × (api.timer_pending t'.thread_timer ≡ true)
        × (sub64 (api.expires t'.thread_timer) stay.to.jiffies
            ≡ sub64 (api.expires raw.thread_timer) stay.from.jiffies)
  unbudgeted_armed schedule d task es id temp node raw i ss stay is absent h nt nn unused range own
        small =
      let (d1, e1, _, ins) =
        start_timer-started api schedule d task es id temp node raw i is nt nn unused h in
      let there =
        info_at-Inserted_new d.thread_map es id.content (started api raw) node d1.thread_map is ins
          i h nn absent in
      let (d2, e2, is2, g2) =
        run_switches-replay api d1 _ ss id.content (started api raw) ins.is range there in
      let (armed, left) = started_budget stay raw small in
      (
        d2,
        away api stay (started api raw),
        rw e1 e2,
        g2 ∙ rw (replay-aways api id.content ss (stay ∷ []) (started api raw) own),
        armed,
        left,
      )
