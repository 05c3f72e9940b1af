-- ===== src/Driver/Machine/Nodes.antt =====
-- The nodes of the map along a history: START_TIMER allocates one, and nothing gives it back.
use mathlib.Core.List.{append_assoc, append-nil}
use ttex_kernel.Common.{
  ◌+◌, ◌≤◌, ◌≡◌, refl, sym, ◌∙◌, ap, subst, List, [], ◌∷◌, ◌++◌, arith, length, length-append,
  Outcome, ok,
}
use ttex_kernel.Timer.{TimerApi}
use ttex_kernel.ThreadMap.Chain.{Entries}
use ttex_kernel.ThreadMap.Refine.{IsMap}
use ttex_kernel.ThreadMap.Abstract.{Threads, Stands}
use ttex_kernel.Driver.{State, Request, Reply}
use ttex_kernel.Driver.Machine.{Act, command, switched, expired, run_acts}
use ttex_kernel.Driver.Machine.Reaches.{YieldsWithin}
use ttex_kernel.Driver.Machine.Grown.{AreValidActs, GrownByAct, GrownByActs, run_acts-grown}

same_entries : {es es' : Entries} → es' ≡ es → es' ≡ es ++ []
same_entries {es} e = e ∙ sym (append-nil es)

module _ {T : Type 0} where
  -- The ids and the nodes of the START_TIMERs of a history, in their order.
  abbrev pub started_by : Act T → Entries
  started_by (command task now (Request.start_timer id temp raw node)) = (id.content, node) ∷ []
  started_by _ = []

  abbrev pub starts : List (Act T) → Entries
  starts [] = []
  starts (a ∷ acts) = started_by a ++ starts acts

  by_act :
      (a : Act T) (es es' : Entries)
      → GrownByAct (λ xs ys. ys ≡ xs) a es es'
      → es' ≡ es ++ started_by a
  by_act (command task now (Request.start_timer id temp raw node)) es es' g = g
  by_act (command task now (Request.mod_timer id)) es es' g = same_entries g
  by_act (command task now (Request.del_timer id)) es es' g = same_entries g
  by_act (command task now (Request.mod_timer_new req)) es es' g = same_entries g
  by_act (command task now (Request.get_timer req sent)) es es' g = same_entries g
  by_act (command task now Request.default) es es' g = same_entries g
  by_act (switched s) es es' g = same_entries g
  by_act (expired id) es es' g = same_entries g

  by_acts :
      (acts : List (Act T)) (es es' : Entries)
      → GrownByActs (λ xs ys. ys ≡ xs) acts es es'
      → es' ≡ es ++ starts acts
  by_acts [] es es' g = same_entries g
  by_acts (a ∷ acts) es es' (es1, g1, g2) =
      by_acts acts es1 es' g2
      ∙ ap (λ xs. xs ++ starts acts) (by_act a es es1 g1)
      ∙ append_assoc es (started_by a) (starts acts)

module _ (api : TimerApi) (schedule : State api → Outcome (State api))
    (yielded : Threads api.TimerList → Threads api.TimerList)
    (yields : YieldsWithin api (λ xs ys. ys ≡ xs) schedule yielded) where
  -- From a map that stands for entries and has the data of a partial function from ids to data at
  -- every id with a place in the array, a history of commands, switches and expiries, each valid in
  -- the state that it finds (ids have a place in the array, `kmalloc` gives unused memory), where
  -- `schedule()` does what the machine has for it and inserts no entry: the code runs to its end,
  -- its map stands for the entries followed by the ids and nodes of the history's START_TIMERs in
  -- their order, the deleted ones among them, and the heap has at least as many nodes as that.
  pub nodes_kept :
      (d : State api) (es : Entries) (threads : Threads api.TimerList)
      (acts : List (Act api.TimerList))
      → Stands d.thread_map es threads
      → AreValidActs api schedule d acts
      → (d' : State api) × (replies : List Reply) × (run_acts api schedule d acts
          ≡ ok (d', replies))
        × IsMap d'.thread_map (es ++ starts acts)
        × (length es + length (starts acts) ≤ length d'.thread_map.nodes)
  nodes_kept d es threads acts st v =
      let (d', es', e, st', grown) =
        run_acts-grown (λ xs ys. ys ≡ xs) (λ xs. refl) api schedule yielded yields d es threads acts
          st v in
      let is : IsMap d'.thread_map (es ++ starts acts) =
        subst (IsMap d'.thread_map) (by_acts acts es es' grown) st'.is in
      (d', _, e, is, omega (arith, is.bounded, length-append es (starts acts)))
