-- ===== src/Profiler/Ended.antt =====
-- A thread of ttex_profiler.h from its begin to its end, in the module of ttex_kernel_update.c.
use ttex_kernel.Common.{
  ℕ, suc, ◌≡◌, refl, ◌≢◌, inl, inr, none, some, List, [], ◌∷◌, ◌++◌, ◌==◌, ◌∙◌, ℤ, pos, ok, Outcome,
  ◌>>=◌, Bool-cases, sym, subst,
}
use ttex_kernel.Timer.{TimerApi, IsTimerApi}
use ttex_kernel.ThreadMap.{Ptr, null, hash_function, load}
use ttex_kernel.ThreadMap.Chain.{Entries, find}
use ttex_kernel.ThreadMap.Refine.{IsMap}
use ttex_kernel.ThreadMap.Info.{info_at}
use ttex_kernel.Driver.{Data, State, UpdatedTimer}
use ttex_kernel.Driver.Ioctl.{budget, started, etx_ioctl}
use ttex_kernel.Driver.Switch.{IsTimed}
use ttex_kernel.Driver.Isolation.{InRange, run_switches}
use ttex_kernel.Driver.Commands.{mod_timer_new-budget, start_timer-there}
use ttex_kernel.Driver.Fresh.{quiet_switches}
use ttex_kernel.Device.{IoctlApi, IsIoctlApi, update_call, file_call}
use ttex_kernel.Tools.Session.{AreApart, Window, sends, copied}
use ttex_kernel.Tools.Calls.{decodes_start}
use ttex_kernel.Profiler.{
  TimeoutNode, LoopDetails, ThreadInfo, Call, set_scheduler, set_affinity, open_device, start_timer,
  get_timer, mod_timer_new, Border, Counters, reset_timer, ompt_test, on_thread_begin,
}
use ttex_kernel.Profiler.Regions.{Running, cross-Running, on_thread_begin-Running, AreKnown}
use ttex_kernel.Profiler.Session.{run_call, run_calls}
use ttex_kernel.Profiler.Budgets.{Timed, switched, get_timer-quiet, mod_timer_new-heard}

-- `on_ompt_callback_sync_region`, `on_ompt_callback_parallel_end` and `on_ompt_callback_thread_end` only
-- read the thread's pointer.
abbrev pub on_sync_region : ThreadInfo → List Call
on_sync_region info = []

abbrev pub on_parallel_end : ThreadInfo → List Call
on_parallel_end info = []

abbrev pub on_thread_end : ThreadInfo → List Call
on_thread_end info = []

-- What happens in a thread that has begun.
pub data Visit : Type 0 where
  at_border : Border → Visit
  at_sync_region : Visit
  at_parallel_end : Visit

abbrev pub borders_of : List Visit → List Border
borders_of [] = []
borders_of (at_border b ∷ vs) = b ∷ borders_of vs
borders_of (at_sync_region ∷ vs) = borders_of vs
borders_of (at_parallel_end ∷ vs) = borders_of vs

module _ (loop_execution : List (List LoopDetails)) (value_at : Ptr → Outcome ℕ) where
  -- The calls of a thread that has begun, to its end.
  unfoldable pub rest_of_life : ThreadInfo → (tid : ℤ) → List Visit → Outcome (List Call)
  rest_of_life info tid [] = ok (on_thread_end info)
  rest_of_life info tid (at_border b ∷ vs) =
      ompt_test loop_execution value_at info tid b >>= λ (info', calls).
      rest_of_life info' tid vs >>= λ rest. ok (calls ++ rest)
  rest_of_life info tid (at_sync_region ∷ vs) =
      rest_of_life info tid vs >>= λ rest. ok (on_sync_region info ++ rest)
  rest_of_life info tid (at_parallel_end ∷ vs) =
      rest_of_life info tid vs >>= λ rest. ok (on_parallel_end info ++ rest)

-- A call that names no thread but the caller, and does not start a timer.
abbrev IsOwn : ℤ → Call → Type 0
IsOwn tid (start_timer id) = ⊥
IsOwn tid (mod_timer_new u) = u.id ≡ tid
IsOwn tid _ = Unit

abbrev AreOwn : ℤ → List Call → Type 0
AreOwn tid [] = Unit
AreOwn tid (c ∷ cs) = IsOwn tid c × AreOwn tid cs

module _ (loop_execution : List (List LoopDetails)) (value_at : Ptr → Outcome ℕ) where
  rest_of_life-AreOwn :
      (info : ThreadInfo) (tid : ℤ) (vs : List Visit)
      → Running info.thread_current_timeout
      → AreKnown loop_execution value_at info.region_data (borders_of vs)
      → (calls : List Call) × (rest_of_life loop_execution value_at info tid vs ≡ ok calls)
        × AreOwn tid calls
  unfolding rest_of_life ompt_test reset_timer
  rest_of_life-AreOwn info tid [] run known = ([], refl, tt)
  rest_of_life-AreOwn info tid (at_border b ∷ vs) run (some_id, region, known) =
      let (n, e) = region info refl in
      let (info1, e1, run1, same) = cross-Running info n tid b.stop b.start run in
      let (calls, e2, own) =
        rest_of_life-AreOwn info1 tid vs run1
          (subst (λ p. AreKnown loop_execution value_at p (borders_of vs)) (sym same) known) in
      (
        get_timer ∷ get_timer ∷ reset_timer tid n.wcet ∷ calls,
        rw (some_id, e, e1) (rw e2 refl),
        (tt, (tt, (refl, own))),
      )
  rest_of_life-AreOwn info tid (at_sync_region ∷ vs) run known =
      let (calls, e, own) = rest_of_life-AreOwn info tid vs run known in (calls, rw e refl, own)
  rest_of_life-AreOwn info tid (at_parallel_end ∷ vs) run known =
      let (calls, e, own) = rest_of_life-AreOwn info tid vs run known in (calls, rw e refl, own)

module _ (codes : IoctlApi) (laws : IsIoctlApi codes) (apart : AreApart codes) (api : TimerApi)
    (timers : IsTimerApi api) (ws : ℕ → Window api.TimerList)
    (range : (i : ℕ) → InRange (ws i).during × InRange (ws i).after) where
  budget_runs :
      (es : Entries) (u : UpdatedTimer) (t : Data api) (d : State api) (i : ℕ)
      → Timed codes laws apart api timers es u.id t d
      → (d' : State api) × (t' : Data api) × (run_call codes api (ws i) d (Call.mod_timer_new u)
          ≡ ok d')
        × Timed codes laws apart api timers es u.id t' d'
  budget_runs es u t d i a =
      let (m', up, e) =
        mod_timer_new-budget api (λ s. run_switches api s (ws i).during) d (copied u) t a.there in
      let stored : Timed codes laws apart api timers es u.id (budget api u.time_val t)
          (record d { thread_map = m' }) =
        record {
          is = up.keeps es a.is;
          there = up.there;
          timed = record { set = a.timed.set; running = a.timed.running };
        } in
      let heard = mod_timer_new-heard codes laws apart api timers (ws i) d in
      elim (Bool-cases (u.time_val == 0)) [
        | inl z ↦ (_, _, heard _ u (e ∙ rw z refl), stored)
        | inr z ↦
            let (d1, e1, a1) =
              switched codes laws apart api timers es u.id (budget api u.time_val t)
                (record d { thread_map = m' }) (ws i).during (range i).0 stored in
            (d1, _, heard d1 u (e ∙ rw z e1), a1)
      ]

  call_runs :
      (es : Entries) (tid : ℤ) (c : Call) (t : Data api) (d : State api) (i : ℕ)
      → IsOwn tid c
      → Timed codes laws apart api timers es tid t d
      → (d' : State api) × (t' : Data api) × (run_call codes api (ws i) d c ≡ ok d')
        × Timed codes laws apart api timers es tid t' d'
  unfolding run_call update_call file_call
  call_runs es tid (set_scheduler p) t d i own a = (d, t, refl, a)
  call_runs es tid (set_affinity p) t d i own a = (d, t, refl, a)
  call_runs es tid open_device t d i own a = (d, t, refl, a)
  call_runs es tid (start_timer id) t d i own a = absurd own
  call_runs es tid get_timer t d i own a =
      (d, t, get_timer-quiet codes laws apart api timers (ws i) d, a)
  call_runs es tid (mod_timer_new u) t d i own a =
      let (d', t', e, a') =
        budget_runs es u t d i
          (subst (λ k. Timed codes laws apart api timers es k t d) (sym own) a) in
      (d', t', e, subst (λ k. Timed codes laws apart api timers es k t' d') own a')

  calls_run :
      (es : Entries) (tid : ℤ) (cs : List Call) (t : Data api) (d : State api) (i : ℕ)
      → AreOwn tid cs
      → Timed codes laws apart api timers es tid t d
      → (d' : State api) × (t' : Data api) × (run_calls codes api ws i d cs ≡ ok d')
        × Timed codes laws apart api timers es tid t' d'
  unfolding run_calls
  calls_run es tid [] t d i own a = (d, t, refl, a)
  calls_run es tid (c ∷ cs) t d i (own, rest) a =
      let (d1, t1, e1, a1) = call_runs es tid c t d i own a in
      let (d2, e2, a2) =
        switched codes laws apart api timers es tid t1 d1 (ws i).after (range i).1 a1 in
      let (d3, t3, e3, a3) = calls_run es tid cs _ d2 (suc i) rest a2 in
      (d3, t3, rw e1 (rw e2 e3), a3)

  start_runs :
      (es : Entries) (tid : ℤ) (d : State api) (i k : ℕ)
      → IsMap d.thread_map es
      → find tid es ≡ none
      → hash_function tid ≡ pos k
      → (ws i).temp ≢ null
      → (ws i).node ≢ null
      → load d.thread_map.nodes (ws i).node ≡ none
      → (d' : State api) × (run_call codes api (ws i) d (start_timer tid) ≡ ok d')
        × Timed codes laws apart api timers
            (es ++ ((tid, (ws i).node) ∷ []))
            tid
            (started api (ws i).raw)
            d'
  unfolding run_call update_call file_call etx_ioctl started
  start_runs es tid d i k is absent h nt nn free =
      let w = ws i in
      let (d', e, is', there) =
        start_timer-there api (λ s. run_switches api s w.during) d w.task es (copied tid) w.temp
          w.node w.raw k is nt nn free h absent in
      (
        d',
        rw (decodes_start codes apart (sends w tid (record { id = tid; time_val = 0 })))
            (rw e refl),
        record { is = is'; there = there; timed = record { set = refl; running = refl } },
      )

  -- The calls of a thread's begin and those behind them.
  begin_runs :
      (d : State api) (es : Entries) (tid priority core : ℤ) (k : ℕ) (cs : List Call)
      → IsMap d.thread_map es
      → find tid es ≡ none
      → hash_function tid ≡ pos k
      → (ws 3).temp ≢ null
      → (ws 3).node ≢ null
      → load d.thread_map.nodes (ws 3).node ≡ none
      → AreOwn tid cs
      → (d' : State api) × (t' : Data api) × (run_calls codes api ws 0 d
            (set_scheduler priority ∷ set_affinity core ∷ open_device ∷ start_timer tid ∷ cs)
          ≡ ok d')
        × Timed codes laws apart api timers (es ++ ((tid, (ws 3).node) ∷ [])) tid t' d'
  unfolding run_calls run_call update_call file_call
  begin_runs d es tid priority core k cs is absent h nt nn free own =
      let (d1, e1, is1, f1) = quiet_switches api d es (ws 0).after is (range 0).1 in
      let (d2, e2, is2, f2) = quiet_switches api d1 es (ws 1).after is1 (range 1).1 in
      let (d3, e3, is3, f3) = quiet_switches api d2 es (ws 2).after is2 (range 2).1 in
      let (d4, e4, a4) = start_runs es tid d3 3 k is3 absent h nt nn (f3 _ (f2 _ (f1 _ free))) in
      let (d5, e5, a5) =
        switched codes laws apart api timers _ tid _ d4 (ws 3).after (range 3).1 a4 in
      let (d6, t6, e6, a6) = calls_run _ tid cs _ d5 4 own a5 in
      (d6, t6, rw e1 (rw e2 (rw e3 (rw e4 (rw e5 e6)))), a6)

  -- The whole life of a thread under ttex_profiler.h, with an id that is new to the map and has a
  -- place in the array, a device that opens, then the callbacks for synchronisation and for ends of
  -- parallel regions in any number and order with calls of `ompt_test`, none of these with all
  -- arguments -1, for regions that the tables hold while no work callback has run, whatever the
  -- structures of GET_TIMER hold behind the calls, successful allocations at a fresh address,
  -- different numbers for the commands, and switches with ids that have a place behind every call
  -- and while a command yields: its callbacks and, in the module, all their calls succeed; at the
  -- end the map has one more entry, the thread's, which is still timed: its `timer_set` is 1 and
  -- its `timer_triggered` 0.
  pub ended_timed :
      (loop_execution : List (List LoopDetails)) (value_at : Ptr → Outcome ℕ)
      (thread_begin : TimeoutNode) (c : Counters) (fd : ℕ) (tid : ℤ) (start : ℕ) (vs : List Visit)
      (d : State api) (es : Entries) (k : ℕ)
      → AreKnown loop_execution value_at null (borders_of vs)
      → IsMap d.thread_map es
      → find tid es ≡ none
      → hash_function tid ≡ pos k
      → (ws 3).temp ≢ null
      → (ws 3).node ≢ null
      → load d.thread_map.nodes (ws 3).node ≡ none
      → (c' : Counters) × (info : ThreadInfo) × (calls calls' : List Call) × (d' : State api)
        × (t' : Data api) × (on_thread_begin thread_begin c (pos fd) tid start
            ≡ (c', some info, calls))
        × (rest_of_life loop_execution value_at info tid vs ≡ ok calls')
        × (run_calls codes api ws 0 d (calls ++ calls') ≡ ok d')
        × IsMap d'.thread_map (es ++ ((tid, (ws 3).node) ∷ []))
        × (info_at d'.thread_map tid ≡ ok (some t'))
        × IsTimed t'
  unfolding reset_timer
  ended_timed loop_execution value_at thread_begin c fd tid start vs d es k known is absent h nt nn
        free =
      let (c', info, begins, run, empty) = on_thread_begin-Running thread_begin c fd tid start in
      let (calls', e, own) =
        rest_of_life-AreOwn loop_execution value_at info tid vs run
          (subst (λ p. AreKnown loop_execution value_at p (borders_of vs)) (sym empty) known) in
      let (d', t', ran, a) =
        begin_runs d es tid _ _ k (get_timer ∷ reset_timer tid thread_begin.wcet ∷ calls') is absent
          h nt nn free (tt, (refl, own)) in
      (c', info, _, calls', d', t', begins, e, ran, a.is, a.there, a.timed)
