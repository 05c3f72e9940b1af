-- ===== src/Driver/Machine.antt =====
-- The module as a machine on partial functions from ids to thread data: commands, switches and
-- expiries without buckets, nodes and pointers.
pub mod Reaches
pub mod Grown
pub mod Refines
pub mod Nodes
pub mod Unmarked
use mathlib.Core.Option
use ttex_kernel.Common.{
  ℕ, Option, none, some, List, [], ◌∷◌, ◌==◌, if◌then◌else◌, ltb, ℤ, pos, Outcome, ok, ◌>>=◌,
}
use ttex_kernel.Timer.{TimerApi, Clock, Task, Copied}
use ttex_kernel.ThreadMap.{max_threads, get}
use ttex_kernel.ThreadMap.Abstract.{Threads, update, add}
use ttex_kernel.Driver.{
  State, UpdatedTimer, ReceiveTimer, Request, Reply, logged, no_reply, sent_reply,
}
use ttex_kernel.Driver.Ioctl.{started, flagged, stopped, budget, measure, etx_ioctl}
use ttex_kernel.Driver.Expiry.{trigger, timer_callback}
use ttex_kernel.Driver.Isolation.{Switch, task_of, effect, run_switch}

-- What enters the module. The timer that expires is the one of the thread `id`.
pub data Act (T : Type 0) : Type 0 where
  command : Task → Clock → Request T → Act T
  switched : Switch → Act T
  expired : (id : ℕ) → Act T

-- The machine: `yielded` is what the other threads do while a command yields.
module _ (api : TimerApi) (yielded : Threads api.TimerList → Threads api.TimerList) where
  abbrev pub budgeted : Copied UpdatedTimer → Threads api.TimerList → Threads api.TimerList
  budgeted req threads = elim (threads req.content.id) [
    | none ↦ threads
    | some t ↦
        let stored = update (budget api req.content.time_val) req.content.id threads in
        if req.content.time_val == 0 then stored else yielded stored
  ]

  abbrev pub answer : Clock → Copied ReceiveTimer → Threads api.TimerList → Option ReceiveTimer
  answer now req threads =
      Option.map
        (λ t. record (req.content) {
          time_val = (measure api now req.content.time_val_to_sub t).executed_time;
        })
        (threads req.content.id)

  abbrev pub step : Threads api.TimerList → Act api.TimerList → Threads api.TimerList × Reply
  step threads (command task now (Request.start_timer id temp raw node)) =
      (add id.content (started api raw) threads, no_reply (logged id.failed))
  step threads (command task now (Request.mod_timer id)) =
      (update (flagged api) id.content threads, no_reply (logged id.failed))
  step threads (command task now (Request.del_timer id)) =
      (update (stopped api) id.content threads, no_reply (logged id.failed))
  step threads (command task now (Request.mod_timer_new req)) =
      (budgeted req threads, no_reply (logged req.failed))
  step threads (command task now (Request.get_timer req sent)) = (
    update (measure api now req.content.time_val_to_sub) req.content.id threads,
    sent_reply req.failed sent (answer now req threads),
  )
  step threads (command task now Request.default) = (threads, no_reply 0)
  step threads (switched s) = (
    if (task_of s).rt_priority == 10
        then update (effect api s) (task_of s).pid threads
        else threads,
    no_reply 0,
  )
  step threads (expired id) =
      (if ltb id max_threads then update trigger (pos id) threads else threads, no_reply 0)

  abbrev pub steps :
      Threads api.TimerList → List (Act api.TimerList) → Threads api.TimerList × List Reply
  steps threads [] = (threads, [])
  steps threads (a ∷ acts) =
      let (threads1, reply) = step threads a in
      let (threads2, replies) = steps threads1 acts in (threads2, reply ∷ replies)

-- The code: the kernel calls `timer_callback` with the address of the thread's timer, if it has one.
module _ (api : TimerApi) (schedule : State api → Outcome (State api)) where
  unfoldable pub run_act : State api → Act api.TimerList → Outcome (State api × Reply)
  run_act d (command task now r) = etx_ioctl api schedule d task now r
  run_act d (switched s) = run_switch api d s >>= λ d'. ok (d', no_reply 0)
  run_act d (expired id) = get d.thread_map (pos id) >>= elim [
    | none ↦ ok (d, no_reply 0)
    | some p ↦ timer_callback d p >>= λ d'. ok (d', no_reply 0)
  ]

  unfoldable pub run_acts : State api → List (Act api.TimerList) → Outcome (State api × List Reply)
  run_acts d [] = ok (d, [])
  run_acts d (a ∷ acts) =
      run_act d a >>= λ (d1, reply). run_acts d1 acts >>= λ (d2, replies). ok (d2, reply ∷ replies)
