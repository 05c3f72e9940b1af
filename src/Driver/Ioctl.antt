-- ===== src/Driver/Ioctl.antt =====
-- `etx_ioctl`, one function for each command and the dispatch.
use ttex_kernel.Common.{
  ℕ, true, false, Option, none, some, ◌==◌, if◌then◌else◌, ℤ, eq_ℤ, Outcome, ok, fault, ◌>>=◌,
}
use ttex_kernel.Timer.{TimerApi, Clock, Task, Copied, sub64}
use ttex_kernel.ThreadMap.{Ptr, null, get, insert, deref}
use ttex_kernel.ThreadMap.Info.{write_info, update_found}
use ttex_kernel.Driver.{
  UpdatedTimer, ReceiveTimer, Request, Reply, logged, no_reply, sent_reply, Data, State,
}

module _ (api : TimerApi) where
  open api use {timer_setup, del_timer as del}

  -- The first real-time caller is remembered in `testing_id`.
  unfoldable pub note_testing : State api → Task → State api
  note_testing d task =
      if task.rt_priority == 10
      then if d.test_check then d else record d { test_check = true; testing_id = d.value }
      else d

  -- The stores of START_TIMER to the block that `kmalloc` gave. `executed_time` and
  -- `get_kern_time` are not written.
  unfoldable pub started : Data api → Data api
  started raw = record raw {
    timer_set = true;
    mod_timer = false;
    mod_msecs = 0;
    context_switch_start = false;
    timer_triggered = false;
    pending_jiffies = 0;
    paused_time = 0;
    total_paused_time = 0;
    thread_timer = timer_setup raw.thread_timer;
  }

  abbrev pub flagged : Data api → Data api
  flagged t = record t { mod_timer = true }

  unfoldable pub mod_timer : State api → Copied ℤ → Outcome (State api)
  mod_timer d id =
      let d' = record d { value = id.content } in
      update_found d'.thread_map d'.value flagged >>= λ m. ok (record d' { thread_map = m })

  abbrev pub stopped : Data api → Data api
  stopped t = record t { thread_timer = del t.thread_timer; timer_set = false }

  unfoldable pub del_timer : State api → Copied ℤ → Outcome (State api)
  del_timer d id =
      let d' = record d { value = id.content } in
      let d'' = if eq_ℤ d'.testing_id d'.value then record d' { test_check = false } else d' in
      update_found d''.thread_map d''.value stopped >>= λ m. ok (record d'' { thread_map = m })

  abbrev pub budget : ℕ → Data api → Data api
  budget msecs t = record t { mod_msecs = msecs }

  -- The region's clock: with 0 to subtract it starts, else it is read.
  unfoldable pub measure : Clock → (time_val_to_sub : ℕ) → Data api → Data api
  measure now sub t =
      if sub == 0 then record t { total_paused_time = 0; executed_time = now.ktime } else record t {
        get_kern_time = now.ktime;
        executed_time = sub64 (sub64 now.ktime sub) t.total_paused_time;
      }

  unfoldable pub get_timer :
      State api → Clock → Copied ReceiveTimer → Outcome (State api × Option ReceiveTimer)
  get_timer d now req = get d.thread_map req.content.id >>= elim [
    | none ↦ ok (d, none)
    | some p ↦
        let m = write_info d.thread_map p (measure now req.content.time_val_to_sub) in
        deref m.nodes p >>= λ n. ok (
          record d { thread_map = m },
          some (record (req.content) { time_val = n.info.executed_time }),
        )
  ]

-- The commands that call `schedule()`.
module _ (api : TimerApi) (schedule : State api → Outcome (State api)) where
  -- START_TIMER behind the copy to `value`. The map gets a copy of the block; the store behind
  -- `schedule()` is to the block itself, which nothing reads again.
  unfoldable pub start_value :
      State api → Task → (temp : Ptr) → Data api → (node : Ptr) → Outcome (State api)
  start_value d task temp raw node =
      let d' = note_testing api d task in
      let info = started api raw in
      if temp == null
      then fault
      else (insert d'.thread_map node d'.value info >>= λ m.
          let d'' = record d' { thread_map = m } in
          if info.context_switch_start then schedule d'' else ok d'')

  unfoldable pub start_timer :
      State api → Task → Copied ℤ → (temp : Ptr) → Data api → (node : Ptr) → Outcome (State api)
  start_timer d task id temp raw node =
      start_value (record d { value = id.content }) task temp raw node

  -- The store, and the `schedule()` that lets the switch-in handler see it.
  unfoldable pub mod_timer_new : State api → Copied UpdatedTimer → Outcome (State api)
  mod_timer_new d req = get d.thread_map req.content.id >>= elim [
    | none ↦ ok d
    | some p ↦
        let d' = record d {
          thread_map = write_info d.thread_map p (budget api req.content.time_val);
        } in
        deref d'.thread_map.nodes p >>= λ n. if n.info.mod_msecs == 0 then ok d' else schedule d'
  ]

  -- Every command returns 0. A failed copy is logged, and the command goes on.
  unfoldable pub etx_ioctl :
      State api → Task → Clock → Request api.TimerList → Outcome (State api × Reply)
  etx_ioctl d task now (Request.start_timer id temp raw node) =
      start_timer d task id temp raw node >>= λ d'. ok (d', no_reply (logged id.failed))
  etx_ioctl d task now (Request.mod_timer id) =
      mod_timer api d id >>= λ d'. ok (d', no_reply (logged id.failed))
  etx_ioctl d task now (Request.del_timer id) =
      del_timer api d id >>= λ d'. ok (d', no_reply (logged id.failed))
  etx_ioctl d task now (Request.mod_timer_new req) =
      mod_timer_new d req >>= λ d'. ok (d', no_reply (logged req.failed))
  etx_ioctl d task now (Request.get_timer req sent) =
      get_timer api d now req >>= λ (d', out). ok (d', sent_reply req.failed sent out)
  etx_ioctl d task now Request.default = ok (d, no_reply 0)
