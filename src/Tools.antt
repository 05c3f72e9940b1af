-- ===== src/Tools.antt =====
-- The tools of profiler_update.h, for the module of ttex_kernel_update.c, and of profiler.h, for
-- that of ttex_kernel.c: the callbacks for the begin and the end of a thread, and `ompt_test`. What
-- the system answers is an argument, and the system calls of a callback are listed in their order.
pub mod Session
pub mod Calls
pub mod Life
pub mod Team
pub mod Events
pub mod Refused
use ttex_kernel.Common.{
  ℕ, zero, suc, ◌+◌, ◌%◌, Bool, true, false, Option, none, some, List, [], ◌∷◌, ◌++◌, if◌then◌else◌,
  ℤ, pos, Outcome, ok, fault, ◌>>=◌,
}
use ttex_kernel.Timer.{u64_mod}
use ttex_kernel.Driver.{UpdatedTimer}
use ttex_kernel.Lifecycle.{is_negative}
use ttex_kernel.Profiler.{core_of, to_i32, thread_priority}

-- The commands that the tools send by ioctl; those of profiler.h have PARENT_ID as well.
pub data Command : Type 0 where
  start_timer : ℤ → Command
  mod_timer_new : UpdatedTimer → Command
  del_timer : ℤ → Command

pub data TeamCommand : Type 0 where
  parent_id : ℤ → TeamCommand
  command : Command → TeamCommand

-- The system calls of the callbacks; `ioctl` and `close` go to the thread's file.
pub data Call (C : Type 0) : Type 0 where
  set_scheduler : (priority : ℤ) → Call C
  set_affinity : (core : ℤ) → Call C
  open_device : Call C
  ioctl : C → Call C
  close : Call C

-- `struct thread_info`.
pub record ThreadInfo : Type 0 where
  pub id : ℤ
  pub fd : ℤ

-- The static counter of `my_next_id`, and the value that it gives.
unfoldable pub my_next_id : (counter : ℕ) → ℕ × ℤ
my_next_id counter = ((counter + 1) % u64_mod, to_i32 counter)

-- What both tools do until the device is open; `fd` is what `open` answers.
abbrev pub setup : {C : Type 0} → (next : ℤ) → List (Call C)
setup next = set_scheduler thread_priority ∷ set_affinity (core_of next) ∷ open_device ∷ []

-- What `thread_data->ptr` then leads to: nothing, where the device did not open.
abbrev pub info_of : (fd tid : ℤ) → Option ThreadInfo
info_of fd tid = if is_negative fd then none else some (record { id = tid; fd = fd })

-- `on_ompt_callback_thread_begin` of profiler_update.h.
unfoldable pub thread_begin :
    (counter : ℕ) → (fd tid : ℤ) → ℕ × Option ThreadInfo × List (Call Command)
unfolding my_next_id
thread_begin counter fd tid =
    let (counter', next) = my_next_id counter in
    (
      counter',
      info_of fd tid,
      (if is_negative fd then setup next else (setup next ++ (ioctl (start_timer tid) ∷ []))),
    )

abbrev pub time_val_msec : ℕ
time_val_msec = 10000

-- The thread's pointer is followed: where it leads to nothing, that is a fault.
abbrev pub followed : {C : Type 0} → Option ThreadInfo → List (Call C) → Outcome (List (Call C))
followed none calls = fault
followed (some info) calls = ok calls

-- `ompt_test`.
unfoldable pub ompt_test : Option ThreadInfo → (tid : ℤ) → Outcome (List (Call Command))
ompt_test info tid =
    followed info (ioctl (mod_timer_new (record { id = tid; time_val = time_val_msec })) ∷ [])

-- `on_ompt_callback_thread_end`.
unfoldable pub thread_end : Option ThreadInfo → (tid : ℤ) → Outcome (List (Call Command))
thread_end info tid = followed info (ioctl (del_timer tid) ∷ close ∷ [])

-- `on_ompt_callback_thread_begin` of profiler.h: `main` is whether `omp_get_thread_num()` is 0.
unfoldable pub team_thread_begin :
    (main : Bool) → (counter : ℕ) → (fd tid : ℤ) → ℕ × Option ThreadInfo × List (Call TeamCommand)
unfolding my_next_id
team_thread_begin main counter fd tid =
    let (counter', next) = my_next_id counter in
    let commands =
      if main
      then ioctl (parent_id tid) ∷ ioctl (command (start_timer tid)) ∷ []
      else (ioctl (command (start_timer tid)) ∷ []) in
    (counter', info_of fd tid, (if is_negative fd then setup next else (setup next ++ commands)))

-- `ompt_test` of profiler.h.
unfoldable pub team_test : Option ThreadInfo → (tid : ℤ) → Outcome (List (Call TeamCommand))
team_test info tid =
    followed info (ioctl (command (mod_timer_new (record { id = tid; time_val = 10000 }))) ∷ [])

-- `on_ompt_callback_thread_end` of profiler.h.
unfoldable pub team_thread_end : Option ThreadInfo → (tid : ℤ) → Outcome (List (Call TeamCommand))
team_thread_end info tid = followed info (ioctl (command (del_timer tid)) ∷ close ∷ [])
