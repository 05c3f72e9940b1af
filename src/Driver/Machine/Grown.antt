-- ===== src/Driver/Machine/Grown.antt =====
-- What every act, and every history, does to the entries of the map and to the threads.
use ttex_kernel.Common.{◌++◌, ◌≡◌, refl, List, [], ◌∷◌, Outcome, ok}
use ttex_kernel.Timer.{TimerApi, Clock, Task}
use ttex_kernel.ThreadMap.Chain.{Entries}
use ttex_kernel.ThreadMap.Abstract.{HasPlace, Threads, Stands, Inserted-Stands}
use ttex_kernel.Driver.{State, Request, Reply}
use ttex_kernel.Driver.Ioctl.{started, etx_ioctl}
use ttex_kernel.Driver.Isolation.{task_of}
use ttex_kernel.Driver.Commands.{start_timer-started}
use ttex_kernel.Driver.Safety.{IsValid}
use ttex_kernel.Driver.Machine.{Act, command, switched, expired, step, steps, run_act, run_acts}
use ttex_kernel.Driver.Machine.Reaches.{
  YieldsWithin, mod_timer-Reaches, del_timer-Reaches, mod_timer_new-Reaches, get_timer-Reaches,
  run_switch-Reaches, expired-Reaches,
}

-- Each act is valid in the state that it finds.
module _ (api : TimerApi) (schedule : State api → Outcome (State api)) where
  abbrev pub IsValidAct : State api → Act api.TimerList → Type 0
  IsValidAct d (command task now r) = IsValid d r
  IsValidAct d (switched s) = HasPlace (task_of s).pid
  IsValidAct d (expired id) = Unit

  abbrev pub AreValidActs : State api → List (Act api.TimerList) → Type 0
  AreValidActs d [] = Unit
  AreValidActs d (a ∷ acts) =
      IsValidAct d a
      × ((d' : State api) (reply : Reply)
          → run_act api schedule d a ≡ ok (d', reply)
          → AreValidActs d' acts)

-- How the entries grow along an act and along a history, where a yield makes them grow by `Q`.
module _ (Q : Entries → Entries → Type 0) {T : Type 0} where
  abbrev pub GrownByAct : Act T → Entries → Entries → Type 0
  GrownByAct (command task now (Request.start_timer id temp raw node)) es es' =
      es' ≡ es ++ ((id.content, node) ∷ [])
  GrownByAct (command task now (Request.mod_timer_new req)) es es' = Q es es'
  GrownByAct _ es es' = es' ≡ es

  abbrev pub GrownByActs : List (Act T) → Entries → Entries → Type 0
  GrownByActs [] es es' = es' ≡ es
  GrownByActs (a ∷ acts) es es' = (es1 : Entries) × GrownByAct a es es1 × GrownByActs acts es1 es'

module _ (Q : Entries → Entries → Type 0) (same : (es : Entries) → Q es es) (api : TimerApi)
    (schedule : State api → Outcome (State api))
    (yielded : Threads api.TimerList → Threads api.TimerList)
    (yields : YieldsWithin api Q schedule yielded) where
  -- The code runs to a state that stands for the machine's, with the machine's reply.
  abbrev Does :
      Act api.TimerList
      → Entries
      → Outcome (State api × Reply)
      → Threads api.TimerList × Reply
      → Type 0
  Does a es r (threads, reply) =
      (d' : State api) × (es' : Entries) × (r ≡ ok (d', reply))
      × Stands d'.thread_map es' threads
      × GrownByAct Q a es es'

  command-Does :
      (d : State api) (es : Entries) (threads : Threads api.TimerList) (task : Task) (now : Clock)
      (r : Request api.TimerList)
      → Stands d.thread_map es threads
      → IsValid d r
      → Does
          (command task now r)
          es
          (etx_ioctl api schedule d task now r)
          (step api yielded threads (command task now r))
  unfolding etx_ioctl
  command-Does d es threads task now (Request.start_timer id temp raw node) st
        ((i, h), nt, nn, unused) =
      let (d', e, _, ins) =
        start_timer-started api schedule d task es id temp node raw i st.is nt nn unused h in
      (
        d',
        _,
        rw e refl,
        Inserted-Stands d.thread_map d'.thread_map es threads id.content (started api raw) node st
            nn ins,
        refl,
      )
  command-Does d es threads task now (Request.mod_timer id) st v =
      let (d', e, st') = mod_timer-Reaches api d es threads id st v in
      (d', es, rw e refl, st', refl)
  command-Does d es threads task now (Request.del_timer id) st v =
      let (d', e, st') = del_timer-Reaches api d es threads id st v in
      (d', es, rw e refl, st', refl)
  command-Does d es threads task now (Request.mod_timer_new req) st v =
      let (d', es', e, st', grown) =
        mod_timer_new-Reaches api Q schedule yielded d es threads req same yields st v in
      (d', es', rw e refl, st', grown)
  command-Does d es threads task now (Request.get_timer req sent) st v =
      let (d', e, st') = get_timer-Reaches api d es threads now req st v in
      (d', es, rw e refl, st', refl)
  command-Does d es threads task now Request.default st v = (d, es, refl, st, refl)

  run_act-Does :
      (d : State api) (es : Entries) (threads : Threads api.TimerList) (a : Act api.TimerList)
      → Stands d.thread_map es threads
      → IsValidAct api schedule d a
      → Does a es (run_act api schedule d a) (step api yielded threads a)
  unfolding run_act
  run_act-Does d es threads (command task now r) st v = command-Does d es threads task now r st v
  run_act-Does d es threads (switched s) st v =
      let (d', e, st') = run_switch-Reaches api d es threads s st v in
      (d', es, rw e refl, st', refl)
  run_act-Does d es threads (expired id) st v =
      let (d', e, st') = expired-Reaches api schedule d es threads id st in (d', es, e, st', refl)

  pub run_acts-grown :
      (d : State api) (es : Entries) (threads : Threads api.TimerList)
      (acts : List (Act api.TimerList))
      → Stands d.thread_map es threads
      → AreValidActs api schedule d acts
      → let (threads', replies) = steps api yielded threads acts in
        (d' : State api) × (es' : Entries) × (run_acts api schedule d acts ≡ ok (d', replies))
        × Stands d'.thread_map es' threads'
        × GrownByActs Q acts es es'
  unfolding run_acts
  run_acts-grown d es threads [] st v = (d, es, refl, st, refl)
  run_acts-grown d es threads (a ∷ acts) st (v, later) =
      let (d1, es1, e1, st1, g1) = run_act-Does d es threads a st v in
      let (d2, es2, e2, st2, g2) = run_acts-grown d1 es1 _ acts st1 (later d1 _ e1) in
      (d2, es2, rw e1 (rw e2 refl), st2, (es1, g1, g2))
