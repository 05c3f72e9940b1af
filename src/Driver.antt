-- ===== src/Driver.antt =====
-- ttex_kernel_update.c, the kernel module's handlers: the ioctl commands, the kprobe handlers around
-- `__switch_to`, and the callback of the timers. The section's parameters are the kernel's timers
-- and `schedule()`, which returns when the thread runs again: what happens meanwhile is its value.
-- Each handler takes the clock readings and the current task as arguments.
pub mod Expiry
pub mod Commands
pub mod Ioctl
pub mod Isolation
pub mod Trace
pub mod Interleave
pub mod Preempted
pub mod Running
pub mod Machine
pub mod Expired
pub mod Fresh
pub mod Race
pub mod Restart
pub mod Runs
pub mod Safety
pub mod Switch
pub mod Triggered
pub mod Timing
use ttex_kernel.Common.{
  ℕ, ◌+◌, ◌%◌, Bool, true, false, Option, none, some, ◌==◌, if◌then◌else◌, ℤ, pos, eq_ℤ, Outcome,
  ok, fault, ◌>>=◌,
}
use ttex_kernel.Timer.{TimerApi, Clock, Task, Copied, add64, sub64, u32_mod}
use ttex_kernel.ThreadMap.{Ptr, null, max_threads, ThreadData, ThreadMap, get, insert, deref}
use ttex_kernel.ThreadMap.Info.{write_info, update_found}

-- The module's global variables.
pub record Driver (T : Type 0) : Type 0 where
  pub thread_map : ThreadMap T
  pub value : ℤ
  pub test_check : Bool
  pub testing_id : ℤ

-- `struct modified_timer`.
pub record UpdatedTimer : Type 0 where
  pub id : ℤ
  pub time_val : ℕ

-- `struct receive_timer`.
pub record ReceiveTimer : Type 0 where
  pub id : ℤ
  pub time_val_to_sub : ℕ
  pub time_val : ℕ

-- The commands of `etx_ioctl`, each with what it reads from its caller and from `kmalloc`:
-- `temp` and `node` are the two blocks that START_TIMER allocates, `raw` what `temp` first holds.
pub data Request (T : Type 0) : Type 0 where
  start_timer : Copied ℤ → (temp : Ptr) → (raw : ThreadData T) → (node : Ptr) → Request T
  mod_timer : Copied ℤ → Request T
  del_timer : Copied ℤ → Request T
  mod_timer_new : Copied UpdatedTimer → Request T
  get_timer : Copied ReceiveTimer → (sent : Bool) → Request T
  default : Request T

-- What a command gives back: its return value, what it hands to `copy_to_user`, and the number of
-- lines that it logs by `pr_err`.
pub record Reply : Type 0 where
  pub ret : ℤ
  pub out : Option ReceiveTimer
  pub errors : ℕ

abbrev pub logged : Bool → ℕ
logged true = 1
logged false = 0

abbrev pub no_reply : ℕ → Reply
no_reply n = record { ret = pos 0; out = none; errors = n }

-- `sent`: whether `copy_to_user`, which is called when there is something to send, succeeded.
abbrev pub sent_reply : (failed sent : Bool) → Option ReceiveTimer → Reply
sent_reply failed sent none = no_reply (logged failed)
sent_reply failed true (some r) = record { ret = pos 0; out = some r; errors = logged failed }
sent_reply failed false (some r) = record { ret = pos 0; out = some r; errors = logged failed + 1 }

module _ (api : TimerApi) where
  open api use {
    TimerList, expires, timer_setup, msecs_to_jiffies, del_timer as del, mod_timer as mod',
  }

  abbrev pub Data : Type 0
  Data = ThreadData TimerList

  abbrev pub State : Type 0
  State = Driver TimerList

  -- The writes of `pre_handler` to the data of the thread that is switched out.
  unfoldable pub pause : Clock → Data → Data
  pause now t =
      if t.timer_set
      then if t.timer_triggered then t else record t {
        pending_jiffies = sub64 (expires t.thread_timer) now.jiffies;
        paused_time = now.ktime;
        thread_timer = del t.thread_timer;
      }
      else t

  -- The timer that `post_handler` leaves: a new budget, or what was left of the old one.
  unfoldable pub rearm : Clock → Data → Data
  rearm now t =
      if t.mod_msecs == 0
      then record t { thread_timer = mod' t.thread_timer (add64 now.jiffies t.pending_jiffies) }
      else record t {
        thread_timer =
            mod' (del t.thread_timer)
              (add64 now.jiffies (msecs_to_jiffies (t.mod_msecs % u32_mod)));
        mod_msecs = 0;
      }

  -- The writes of `post_handler` to the data of the thread that is switched in.
  unfoldable pub resume : Clock → Data → Data
  unfolding rearm
  resume now t =
      if t.timer_set
      then if t.timer_triggered
        then t
        else (let r = rearm now t in
            record r {
              total_paused_time = add64 r.total_paused_time (sub64 now.ktime r.paused_time);
              context_switch_start = true;
            })
      else t

  -- Both handlers act on real-time threads of priority 10 alone, and on a map that is not empty.
  unfoldable pub on_switch : (Data → Data) → State → Task → Outcome State
  on_switch f d task =
      if task.rt_priority == 10
      then if d.thread_map.arr_size == 0
        then ok d
        else (update_found d.thread_map task.pid f >>= λ m. ok (record d { thread_map = m }))
      else ok d

  unfoldable pub pre_handler : State → (pre_task : Task) → Clock → Outcome State
  unfolding on_switch
  pre_handler d pre_task now = on_switch (pause now) d pre_task

  unfoldable pub post_handler : State → (post_task : Task) → Clock → Outcome State
  unfolding on_switch
  post_handler d post_task now = on_switch (resume now) d post_task
