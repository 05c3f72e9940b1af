-- ===== src/Tools/Refused.antt =====
-- A runtime that refuses a callback, in the tool of profiler_update.h and the module behind it.
use ttex_kernel.Common.{
  suc, arith, ℕ, ◌≡◌, refl, ◌≢◌, true, false, none, some, List, [], ◌∷◌, ◌++◌, ℤ, pos, ok,
}
use ttex_kernel.Timer.{TimerApi, IsTimerApi}
use ttex_kernel.ThreadMap.{null, hash_function, load}
use ttex_kernel.ThreadMap.Chain.{Entries, find}
use ttex_kernel.ThreadMap.Refine.{IsMap}
use ttex_kernel.ThreadMap.Info.{info_at}
use ttex_kernel.Driver.{Data, State}
use ttex_kernel.Driver.Isolation.{InRange}
use ttex_kernel.Device.{IoctlApi}
use ttex_kernel.Tools.{
  ompt_test, Command, start_timer, Call, ioctl, ThreadInfo, setup, my_next_id, thread_begin,
}
use ttex_kernel.Tools.Session.{AreApart, Window, run_calls}
use ttex_kernel.Tools.Calls.{test_calls}
use ttex_kernel.Tools.Life.{begun_runs}
use ttex_kernel.Tools.Events.{
  parallel_begin, parallel_end, work, Step, border, region_begins, works, region_ends, heard,
  on_steps, five_events, refused, no_registration, register_all-could_not, Event, thread_begins,
  thread_ends, Runtime, IsRuntime, update_initialize, on_thread_begin, on_thread_end, session,
}

abbrev borders : List Step → ℕ
borders [] = 0
borders (border ∷ steps) = suc (borders steps)
borders (region_begins ∷ steps) = borders steps
borders (works ∷ steps) = borders steps
borders (region_ends ∷ steps) = borders steps

unheard : (runtime : Runtime) (e : Event) → heard runtime e [] ≡ []
unheard runtime e = ground arith

-- Only the borders make system calls.
on_steps-calls :
    (runtime : Runtime) (info : ThreadInfo) (tid : ℤ) (steps : List Step)
    → on_steps runtime (some info) tid steps ≡ ok (test_calls tid (borders steps))
unfolding on_steps ompt_test
on_steps-calls runtime info tid [] = refl
on_steps-calls runtime info tid (border ∷ steps) = rw (on_steps-calls runtime info tid steps) refl
on_steps-calls runtime info tid (region_begins ∷ steps) =
    rw (unheard runtime parallel_begin, on_steps-calls runtime info tid steps) refl
on_steps-calls runtime info tid (works ∷ steps) =
    rw (unheard runtime work, on_steps-calls runtime info tid steps) refl
on_steps-calls runtime info tid (region_ends ∷ steps) =
    rw (unheard runtime parallel_end, on_steps-calls runtime info tid steps) refl

unended_calls :
    (runtime : Runtime) (counter f : ℕ) (tid : ℤ) (steps : List Step)
    → runtime.calls_back thread_begins ≡ true
    → runtime.calls_back thread_ends ≡ false
    → session runtime counter (pos f) tid steps
      ≡ ok (
          setup (my_next_id counter).1
          ++ (ioctl (start_timer tid) ∷ (test_calls tid (borders steps) ++ [])))
unfolding session on_thread_begin on_thread_end thread_begin my_next_id
unended_calls runtime counter f tid steps begins ends =
    rw (begins, ends) (rw (on_steps-calls runtime (record { id = tid; fd = pos f }) tid steps) refl)

module _ (codes : IoctlApi) (apart : AreApart codes) (api : TimerApi) (laws : IsTimerApi api)
    (ws : ℕ → Window api.TimerList) (range : (i : ℕ) → InRange (ws i).during × InRange (ws i).after)
    (runtime : Runtime) (documented : IsRuntime runtime) where
  -- A runtime that answers `ompt_set_never` for the end of a thread and, as documented, does not
  -- call that callback, but calls the one for its begin: `ompt_initialize` of profiler_update.h
  -- prints a message for each refused event and returns 1 all the same; and the callbacks of a
  -- thread with an id that is new to the map and has a place in the array, a device that opens,
  -- successful allocations at a fresh address, different numbers for the commands, and switches
  -- with ids that have a place behind every call and while a command yields, succeed with all their
  -- calls in the module, where the thread is then still there with `timer_set` 1.
  pub refused_end :
      (d : State api) (es : Entries) (counter f : ℕ) (tid : ℤ) (steps : List Step) (k : ℕ)
      → runtime.never thread_ends ≡ true
      → runtime.calls_back thread_begins ≡ true
      → IsMap d.thread_map es
      → find tid es ≡ none
      → hash_function tid ≡ pos k
      → (ws 3).temp ≢ null
      → (ws 3).node ≢ null
      → load d.thread_map.nodes (ws 3).node ≡ none
      → ((update_initialize runtime).1 ≡ pos 1)
        × ((update_initialize runtime).0.could_not ≡ refused runtime five_events)
        × (calls : List (Call Command)) × (d' : State api) × (t' : Data api) × (session runtime
              counter
              (pos f)
              tid
              steps
            ≡ ok calls)
        × (run_calls codes api ws 0 d calls ≡ ok d')
        × (info_at d'.thread_map tid ≡ ok (some t'))
        × (t'.timer_set ≡ true)
  unfolding update_initialize run_calls
  refused_end d es counter f tid steps k never begins is absent h nt nn free =
      let next = (my_next_id counter).1 in
      let (d1, t1, j, e1, a1, s1) =
        begun_runs codes apart api laws ws range d es next tid (borders steps) k [] is absent h nt
          nn free in
      (
        refl,
        register_all-could_not runtime five_events no_registration,
        _,
        d1,
        t1,
        unended_calls runtime counter f tid steps begins
            (documented.never_called thread_ends never),
        e1,
        a1.there,
        s1,
      )
