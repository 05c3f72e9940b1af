-- ===== src/Tools/Life.antt =====
-- The life of a thread, from its begin to its end, in the module of ttex_kernel_update.c.
use ttex_kernel.Common.{
  true, ℕ, zero, suc, ◌<◌, ◌≡◌, refl, ◌≢◌, ◌∙◌, ne→==, false, none, some, List, [], ◌∷◌, ◌++◌,
  arith, ℤ, pos, Outcome, ok,
}
use ttex_kernel.Timer.{TimerApi, IsTimerApi}
use ttex_kernel.ThreadMap.{null, hash_function, load}
use ttex_kernel.ThreadMap.Chain.{Entries, find}
use ttex_kernel.ThreadMap.Refine.{IsMap}
use ttex_kernel.ThreadMap.Info.{info_at}
use ttex_kernel.Driver.{Data, State, UpdatedTimer}
use ttex_kernel.Driver.Ioctl.{etx_ioctl, budget, stopped, started}
use ttex_kernel.Driver.Isolation.{Switch, InRange, run_switches, run_switches-replay, replay}
use ttex_kernel.Driver.Trace.{replay-timer_set}
use ttex_kernel.Driver.Commands.{mod_timer_new-budget, del_timer-stopped, start_timer-there}
use ttex_kernel.Driver.Restart.{replay_unset}
use ttex_kernel.Driver.Fresh.{quiet_switches}
use ttex_kernel.Device.{IoctlApi, update_call, file_call}
use ttex_kernel.Tools.{
  Command, start_timer, mod_timer_new, del_timer, Call, ioctl, close, setup, my_next_id,
  time_val_msec,
}
use ttex_kernel.Tools.Session.{life, AreApart, Window, sends, run_call, run_calls}
use ttex_kernel.Tools.Calls.{
  test_calls, end_calls, life_calls, life-calls, decodes_start, decodes_del, decodes_new,
}

module _ (codes : IoctlApi) (apart : AreApart codes) (api : TimerApi) (laws : IsTimerApi api)
    (ws : ℕ → Window api.TimerList)
    (range : (i : ℕ) → InRange (ws i).during × InRange (ws i).after) where
  -- The thread's data is there, on a map for the entries.
  pub record Alive (es : Entries) (tid : ℤ) (t : Data api) (d : State api) : Type 0 where
    pub is : IsMap d.thread_map es
    pub there : info_at d.thread_map tid ≡ ok (some t)

  switched :
      (es : Entries) (tid : ℤ) (t : Data api) (d : State api) (ss : List Switch)
      → InRange ss
      → Alive es tid t d
      → (d' : State api) × (run_switches api d ss ≡ ok d') × Alive es tid (replay api tid ss t) d'
  switched es tid t d ss r a =
      let (d', e, is', g) = run_switches-replay api d es ss tid t a.is r a.there in
      (d', e, record { is = is'; there = g })

  new_runs :
      (es : Entries) (u : UpdatedTimer) (t : Data api) (d : State api) (i : ℕ)
      → 0 < u.time_val
      → Alive es u.id t d
      → (d' : State api) × (t' : Data api) × (run_call codes api (ws i) d (ioctl (mod_timer_new u))
          ≡ ok d')
        × Alive es u.id t' d'
        × (t'.timer_set ≡ t.timer_set)
  unfolding run_call update_call file_call etx_ioctl
  new_runs es u t d i budgeted a =
      let (m', up, e) =
        mod_timer_new-budget api (λ s. run_switches api s (ws i).during) d
          (record { content = u; failed = false }) t a.there in
      let (d1, e1, a1) =
        switched es u.id (budget api u.time_val t) (record d { thread_map = m' }) (ws i).during
          (range i).0 (record { is = up.keeps es a.is; there = up.there }) in
      (
        d1,
        _,
        rw (decodes_new codes apart (sends (ws i) u.id u))
            (rw e (rw (ne→== u.time_val 0 (omega arith)) (rw e1))),
        a1,
        replay-timer_set api u.id (ws i).during (budget api u.time_val t),
      )

  del_runs :
      (es : Entries) (tid : ℤ) (t : Data api) (d : State api) (i : ℕ)
      → Alive es tid t d
      → (d' : State api) × (run_call codes api (ws i) d (ioctl (del_timer tid)) ≡ ok d')
        × Alive es tid (stopped api t) d'
  unfolding run_call update_call file_call etx_ioctl
  del_runs es tid t d i a =
      let (d1, e1, up, _) =
        del_timer-stopped api d (record { content = tid; failed = false }) t a.there in
      (
        d1,
        rw (decodes_del codes apart (sends (ws i) tid (record { id = tid; time_val = 0 }))) (rw e1),
        record { is = up.keeps es a.is; there = up.there },
      )

  -- A stopped thread stays as it is.
  stopped_stays :
      (es : Entries) (tid : ℤ) (t : Data api) (d : State api) (ss : List Switch)
      → InRange ss
      → Alive es tid (stopped api t) d
      → (d' : State api) × (run_switches api d ss ≡ ok d') × Alive es tid (stopped api t) d'
  stopped_stays es tid t d ss r a =
      let (d', e, a') = switched es tid (stopped api t) d ss r a in
      (
        d',
        e,
        record {
          is = a'.is;
          there = a'.there ∙ rw (replay_unset api laws tid ss (stopped api t) refl);
        },
      )

  end_runs :
      (es : Entries) (tid : ℤ) (t : Data api) (d : State api) (i : ℕ)
      → Alive es tid t d
      → (d' : State api) × (run_calls codes api ws i d (end_calls tid) ≡ ok d')
        × Alive es tid (stopped api t) d'
  unfolding run_calls
  end_runs es tid t d i a =
      let (d1, e1, a1) = del_runs es tid t d i a in
      let (d2, e2, a2) = stopped_stays es tid t d1 (ws i).after (range i).1 a1 in
      let (d3, e3, a3) = stopped_stays es tid t d2 (ws (suc i)).after (range (suc i)).1 a2 in
      (d3, rw e1 (rw e2 (rw (closes (suc i) d2) (rw e3))), a3)
    where
      closes : (j : ℕ) (s : State api) → run_call codes api (ws j) s close ≡ ok s
      closes j s = unfold run_call update_call file_call in refl

  -- The borders keep `timer_set`; the calls behind them go on with the number `i + n`.
  tests_run :
      (es : Entries) (tid : ℤ) (n : ℕ) (cs : List (Call Command)) (t : Data api) (d : State api)
      (i : ℕ)
      → Alive es tid t d
      → (d' : State api) × (t' : Data api) × (j : ℕ) × (run_calls codes api ws i d
            (test_calls tid n ++ cs)
          ≡ run_calls codes api ws j d' cs)
        × Alive es tid t' d'
        × (t'.timer_set ≡ t.timer_set)
  unfolding run_calls
  tests_run es tid zero cs t d i a = (d, t, i, refl, a, refl)
  tests_run es tid (suc n) cs t d i a =
      let u : UpdatedTimer = record { id = tid; time_val = time_val_msec } in
      let (d1, t1, e1, a1, s1) = new_runs es u t d i (omega arith) a in
      let (d2, e2, a2) = switched es tid t1 d1 (ws i).after (range i).1 a1 in
      let (d3, t3, j, e3, a3, s3) = tests_run es tid n cs _ d2 (suc i) a2 in
      (d3, t3, j, rw e1 (rw e2 e3), a3, s3 ∙ replay-timer_set api tid (ws i).after t1 ∙ s1)

  start_runs :
      (es : Entries) (tid : ℤ) (d : State api) (i k : ℕ)
      → IsMap d.thread_map es
      → find tid es ≡ none
      → hash_function tid ≡ pos k
      → (ws i).temp ≢ null
      → (ws i).node ≢ null
      → load d.thread_map.nodes (ws i).node ≡ none
      → (d' : State api) × (run_call codes api (ws i) d (ioctl (start_timer tid)) ≡ ok d')
        × Alive (es ++ ((tid, (ws i).node) ∷ [])) tid (started api (ws i).raw) d'
  unfolding run_call update_call file_call etx_ioctl
  start_runs es tid d i k is absent h nt nn free =
      let w = ws i in
      let schedule : State api → Outcome (State api) = λ s. run_switches api s w.during in
      let (d', e, is', there) =
        start_timer-there api schedule d w.task es (record { content = tid; failed = false }) w.temp
          w.node w.raw k is nt nn free h absent in
      (
        d',
        rw (decodes_start codes apart (sends w tid (record { id = tid; time_val = 0 }))) (rw e),
        record { is = is'; there = there },
      )

  -- The calls of a thread from its begin to its last border, which leave it timed by the module;
  -- those behind them go on with some number.
  pub begun_runs :
      (d : State api) (es : Entries) (next tid : ℤ) (n k : ℕ) (cs : List (Call Command))
      → IsMap d.thread_map es
      → find tid es ≡ none
      → hash_function tid ≡ pos k
      → (ws 3).temp ≢ null
      → (ws 3).node ≢ null
      → load d.thread_map.nodes (ws 3).node ≡ none
      → (d' : State api) × (t' : Data api) × (j : ℕ) × (run_calls codes api ws 0 d
            (setup next ++ (ioctl (start_timer tid) ∷ (test_calls tid n ++ cs)))
          ≡ run_calls codes api ws j d' cs)
        × Alive (es ++ ((tid, (ws 3).node) ∷ [])) tid t' d'
        × (t'.timer_set ≡ true)
  unfolding run_calls run_call update_call file_call started
  begun_runs d es next tid n k cs is absent h nt nn free =
      let (d1, e1, is1, f1) = quiet_switches api d es (ws 0).after is (range 0).1 in
      let (d2, e2, is2, f2) = quiet_switches api d1 es (ws 1).after is1 (range 1).1 in
      let (d3, e3, is3, f3) = quiet_switches api d2 es (ws 2).after is2 (range 2).1 in
      let (d4, e4, a4) = start_runs es tid d3 3 k is3 absent h nt nn (f3 _ (f2 _ (f1 _ free))) in
      let (d5, e5, a5) = switched _ tid _ d4 (ws 3).after (range 3).1 a4 in
      let (d6, t6, j, e6, a6, s6) = tests_run _ tid n cs _ d5 4 a5 in
      (
        d6,
        t6,
        j,
        rw e1 (rw e2 (rw e3 (rw e4 (rw e5 e6)))),
        a6,
        s6 ∙ replay-timer_set api tid (ws 3).after (started api (ws 3).raw),
      )

  -- The whole life of a thread under the tool of profiler_update.h, with an id that is new to the
  -- map and has a place in the array, a device that opens, successful allocations at a fresh
  -- address, different numbers for the commands, and switches with ids that have a place behind
  -- every call and while a command yields: its callbacks and, in the module, all their calls
  -- succeed; at the end the map has one more entry, the thread's, whose timer is not queued and
  -- whose `timer_set` is 0.
  pub thread_life :
      (d : State api) (es : Entries) (counter f : ℕ) (tid : ℤ) (n k : ℕ)
      → IsMap d.thread_map es
      → find tid es ≡ none
      → hash_function tid ≡ pos k
      → (ws 3).temp ≢ null
      → (ws 3).node ≢ null
      → load d.thread_map.nodes (ws 3).node ≡ none
      → (calls : List (Call Command)) × (d' : State api) × (t' : Data api) × (life counter
            (pos f)
            tid
            n
          ≡ ok calls)
        × (run_calls codes api ws 0 d calls ≡ ok d')
        × IsMap d'.thread_map (es ++ ((tid, (ws 3).node) ∷ []))
        × (info_at d'.thread_map tid ≡ ok (some t'))
        × (t'.timer_set ≡ false)
        × (api.timer_pending t'.thread_timer ≡ false)
  thread_life d es counter f tid n k is absent h nt nn free =
      let next = (my_next_id counter).1 in
      let (d1, t1, j, e1, a1, _) =
        begun_runs d es next tid n k (end_calls tid) is absent h nt nn free in
      let (d2, e2, a2) = end_runs _ tid t1 d1 j a1 in
      (
        life_calls next tid n,
        d2,
        stopped api t1,
        life-calls counter f tid n,
        e1 ∙ e2,
        a2.is,
        a2.there,
        refl,
        laws.pending_of_del t1.thread_timer,
      )
