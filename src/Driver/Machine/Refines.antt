-- ===== src/Driver/Machine/Refines.antt =====
-- The code does what the machine does.
use ttex_kernel.Common.{none, ◌≡◌, refl, List, [], ◌∷◌, ◌==◌, Outcome, ok, if◌then◌else◌}
use ttex_kernel.Timer.{TimerApi}
use ttex_kernel.ThreadMap.Chain.{Entries, find}
use ttex_kernel.ThreadMap.Abstract.{Threads, update, Stands}
use ttex_kernel.Driver.{Driver, State}
use ttex_kernel.Driver.Isolation.{InRange, run_switches, Switch, task_of, effect}
use ttex_kernel.Driver.Runs.{cleared}
use ttex_kernel.ThreadMap.Bounds.{new_map-IsMap}
use ttex_kernel.ThreadMap.Refine.{get-find}
use ttex_kernel.ThreadMap.Write.{info_at-none}
use ttex_kernel.Driver.Machine.{Act, steps, run_acts}
use ttex_kernel.Driver.Machine.Reaches.{YieldsWithin, run_switch-Reaches}
use ttex_kernel.Driver.Machine.Grown.{AreValidActs, run_acts-grown}

-- What `schedule()` does, and the machine's view of it.
abbrev pub Yields :
    (api : TimerApi)
    → (State api → Outcome (State api))
    → (Threads api.TimerList → Threads api.TimerList)
    → Type 0
Yields api schedule yielded =
    (d : State api) (es : Entries) (threads : Threads api.TimerList)
    → Stands d.thread_map es threads
    → (d' : State api) × (es' : Entries) × (schedule d ≡ ok d')
      × Stands d'.thread_map es' (yielded threads)

module _ (api : TimerApi) (schedule : State api → Outcome (State api))
    (yielded : Threads api.TimerList → Threads api.TimerList)
    (yields : Yields api schedule yielded) where
  -- From a map that stands for entries and has the data of a partial function from ids to data at
  -- every id with a place in the array, a history of commands, switches and expiries of the timers
  -- of given threads: if each is valid in the state that it finds (ids have a place in the array,
  -- `kmalloc` gives unused memory), and `schedule()` does what the machine has for it, then the
  -- code runs to its end with the replies of the machine, and its map has in the same way the data
  -- of the machine's threads.
  pub run_acts-steps :
      (d : State api) (es : Entries) (threads : Threads api.TimerList)
      (acts : List (Act api.TimerList))
      → Stands d.thread_map es threads
      → AreValidActs api schedule d acts
      → let (threads', replies) = steps api yielded threads acts in
        (d' : State api) × (es' : Entries) × (run_acts api schedule d acts ≡ ok (d', replies))
        × Stands d'.thread_map es' threads'
  run_acts-steps d es threads acts st v =
      let (d', es', e, st', _) =
        run_acts-grown (λ xs ys. Unit) (λ xs. tt) api schedule yielded
          (λ d es threads st.
            let (d', es', e, st') = yields d es threads st in (d', es', e, st', tt))
          d es threads acts st v in
      (d', es', e, st')

-- `schedule()` as switches of threads with a place in the array.
module _ (api : TimerApi) where
  abbrev pub switch_all : List Switch → Threads api.TimerList → Threads api.TimerList
  switch_all [] threads = threads
  switch_all (s ∷ ss) threads = switch_all ss (
      if (task_of s).rt_priority == 10
      then update (effect api s) (task_of s).pid threads
      else threads)

  pub run_switches-same :
      (ss : List Switch)
      → InRange ss
      → YieldsWithin api (λ xs ys. ys ≡ xs) (λ d. run_switches api d ss) (switch_all ss)
  unfolding run_switches
  run_switches-same [] range d es threads st = (d, es, refl, st, refl)
  run_switches-same (s ∷ ss) (place, range) d es threads st =
      let (d1, e1, st1) = run_switch-Reaches api d es threads s st place in
      let (d2, es2, e2, st2, same) = run_switches-same ss range d1 es _ st1 in
      (d2, es2, rw e1 e2, st2, same)

  pub run_switches-Yields :
      (ss : List Switch) → InRange ss → Yields api (λ d. run_switches api d ss) (switch_all ss)
  run_switches-Yields ss range d es threads st =
      let (d', es', e, st', _) = run_switches-same ss range d es threads st in (d', es', e, st')

-- The map that `run_events_safe` begins with has no threads.
module _ {T : Type 0} where
  abbrev blank : Driver T
  blank = cleared

  pub cleared-Stands : Stands blank.thread_map [] (λ k. none)
  unfolding find
  cleared-Stands = record {
    is = new_map-IsMap;
    same = λ k (i, h).
        info_at-none blank.thread_map k (get-find blank.thread_map [] k i new_map-IsMap h);
  }
