-- ===== src/Driver/Runs.antt =====
-- Histories of the whole module: commands, switches and expiries in any order, from a map whose
-- buckets are `NULL`.
use ttex_kernel.Common.{◌≡◌, refl, List, [], ◌∷◌, ◌>>=◌, Outcome, ok, pos, replicate, false}
use ttex_kernel.Timer.{TimerApi, Clock, Task}
use ttex_kernel.ThreadMap.{Ptr, null, max_threads}
use ttex_kernel.ThreadMap.Chain.{Entries}
use ttex_kernel.ThreadMap.Refine.{IsMap}
use ttex_kernel.ThreadMap.Bounds.{new_map, new_map-IsMap}
use ttex_kernel.ThreadMap.Abstract.{HasPlace}
use ttex_kernel.Driver.{Driver, State, Request}
use ttex_kernel.Driver.Ioctl.{etx_ioctl}
use ttex_kernel.Driver.Expiry.{timer_callback}
use ttex_kernel.Driver.Isolation.{Switch, task_of, run_switch, run_switch-IsMap}
use ttex_kernel.Driver.Safety.{IsValid, Fine, KeepsMap, timer_callback-Fine, etx_ioctl-IsMap}

-- One entry of the kernel into the module.
pub data Event (T : Type 0) : Type 0 where
  ioctl : Task → Clock → Request T → Event T
  switch : Switch → Event T
  expiry : (fired : Ptr) → Event T

-- The state behind the module's initialisers, over a cleared map.
abbrev pub cleared : {T : Type 0} → Driver T
cleared = record {
  thread_map = new_map (replicate max_threads null);
  value = pos 0;
  test_check = false;
  testing_id = pos 0;
}

module _ (api : TimerApi) (schedule : State api → Outcome (State api)) where
  unfoldable pub run_event : State api → Event api.TimerList → Outcome (State api)
  run_event d (ioctl task now r) = etx_ioctl api schedule d task now r >>= λ (d', reply). ok d'
  run_event d (switch s) = run_switch api d s
  run_event d (expiry fired) = timer_callback d fired

  unfoldable pub run_events : State api → List (Event api.TimerList) → Outcome (State api)
  run_events d [] = ok d
  run_events d (e ∷ es) = run_event d e >>= λ d'. run_events d' es

  abbrev pub IsValidEvent : State api → Event api.TimerList → Type 0
  IsValidEvent d (ioctl task now r) = IsValid d r
  IsValidEvent d (switch s) = HasPlace (task_of s).pid
  IsValidEvent d (expiry fired) = Unit

  -- Each event is valid in the state that it finds.
  abbrev pub AreValid : State api → List (Event api.TimerList) → Type 0
  AreValid d [] = Unit
  AreValid d (e ∷ es) =
      IsValidEvent d e × ((d' : State api) → run_event d e ≡ ok d' → AreValid d' es)

module _ (api : TimerApi) (schedule : State api → Outcome (State api))
    (keep : KeepsMap api schedule) where
  run_event-Fine :
      (d : State api) (es : Entries) (e : Event api.TimerList)
      → IsMap d.thread_map es
      → IsValidEvent api schedule d e
      → Fine (run_event api schedule d e)
  unfolding run_event
  run_event-Fine d es (ioctl task now r) is v =
      let (d', reply, es', e, is', _) = etx_ioctl-IsMap api schedule d es task now r keep is v in
      (d', es', rw e, is')
  run_event-Fine d es (switch s) is (i, h) =
      let (d', e, is') = run_switch-IsMap api d es s i is h in (d', es, e, is')
  run_event-Fine d es (expiry fired) is v = timer_callback-Fine d es fired is

  run_events-Fine :
      (d : State api) (es : Entries) (events : List (Event api.TimerList))
      → IsMap d.thread_map es
      → AreValid api schedule d events
      → Fine (run_events api schedule d events)
  unfolding run_events
  run_events-Fine d es [] is v = (d, es, refl, is)
  run_events-Fine d es (e ∷ events) is (v, later) =
      let (d1, es1, e1, is1) = run_event-Fine d es e is v in
      let (d2, es2, e2, is2) = run_events-Fine d1 es1 events is1 (later d1 e1) in
      (d2, es2, rw e1 e2, is2)

  -- From a map with every bucket `NULL`, every history of commands, switches and expiries runs to
  -- its end without a bad memory access or an endless walk, and its map stands for some entries, if
  -- each event is valid in the state that it finds (ids have a place in the array, `kmalloc` gives
  -- unused memory) and `schedule()` keeps maps that stand for entries so.
  pub run_events_safe :
      (events : List (Event api.TimerList))
      → AreValid api schedule cleared events
      → (d' : State api) × (es : Entries) × (run_events api schedule cleared events ≡ ok d')
        × IsMap d'.thread_map es
  run_events_safe events v = run_events-Fine cleared [] events new_map-IsMap v
