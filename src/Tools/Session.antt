-- ===== src/Tools/Session.antt =====
-- A thread under the tool of profiler_update.h, in the module of ttex_kernel_update.c: the tool's
-- system calls, the device's operations, the module's commands, and context switches of any threads
-- behind the commands and while a command yields.
use ttex_kernel.Common.{
  ℕ, zero, suc, ◌≢◌, Option, true, false, List, [], ◌∷◌, ◌++◌, ℤ, pos, Outcome, ok, ◌>>=◌,
}
use ttex_kernel.Timer.{TimerApi, Clock, Task, Copied}
use ttex_kernel.ThreadMap.{Ptr, ThreadData}
use ttex_kernel.Driver.{State, UpdatedTimer}
use ttex_kernel.Driver.Isolation.{Switch, run_switches}
use ttex_kernel.Device.{
  IoctlApi, Argument, update_call, FileCall, open_file, release, unlocked_ioctl, start_timer_number,
  mod_timer_number, del_timer_number, mod_timer_new_number,
}
use ttex_kernel.Tools.{
  Command, start_timer, mod_timer_new, del_timer, Call, set_scheduler, set_affinity, open_device,
  ioctl, close, ThreadInfo, thread_begin, ompt_test, thread_end,
}

-- The callbacks of a thread that reaches `n` borders.
unfoldable pub tests : ℕ → Option ThreadInfo → (tid : ℤ) → Outcome (List (Call Command))
tests zero info tid = ok []
tests (suc n) info tid =
    ompt_test info tid >>= λ calls. tests n info tid >>= λ rest. ok (calls ++ rest)

unfoldable pub life : (counter : ℕ) → (fd tid : ℤ) → ℕ → Outcome (List (Call Command))
life counter fd tid n =
    let (counter', info, begin) = thread_begin counter fd tid in
    tests n info tid >>= λ middle. thread_end info tid >>= λ end. ok (begin ++ (middle ++ end))

-- The commands of the device have different numbers, as `switch` needs.
pub record AreApart (codes : IoctlApi) : Type 0 where
  pub start_del : del_timer_number codes ≢ start_timer_number codes
  pub mod_del : del_timer_number codes ≢ mod_timer_number codes
  pub start_new : mod_timer_new_number codes ≢ start_timer_number codes
  pub mod_new : mod_timer_new_number codes ≢ mod_timer_number codes
  pub del_new : mod_timer_new_number codes ≢ del_timer_number codes

-- What the kernel gives to one call: the thread, the readings of the clock, two blocks of memory, and
-- the switches while the command yields and behind the call.
pub record Window (T : Type 0) : Type 0 where
  pub task : Task
  pub now : Clock
  pub temp : Ptr
  pub raw : ThreadData T
  pub node : Ptr
  pub during : List Switch
  pub after : List Switch

abbrev pub copied : {A : Type 0} → A → Copied A
copied x = record { content = x; failed = false }

-- The caller's memory for each command; the structures that it does not send hold zeros.
abbrev pub sends : {T : Type 0} → Window T → (id : ℤ) → UpdatedTimer → Argument T
sends w id updated = record {
  id = copied id;
  updated = copied updated;
  receive = copied (record { id = pos 0; time_val_to_sub = 0; time_val = 0 });
  sent = true;
  temp = w.temp;
  raw = w.raw;
  node = w.node;
}

module _ (codes : IoctlApi) where
  abbrev pub file_call_of : {T : Type 0} → Window T → Command → FileCall (ℕ × Argument T)
  file_call_of w (start_timer id) =
      unlocked_ioctl (start_timer_number codes, sends w id (record { id = id; time_val = 0 }))
  file_call_of w (mod_timer_new u) = unlocked_ioctl (mod_timer_new_number codes, sends w u.id u)
  file_call_of w (del_timer id) =
      unlocked_ioctl (del_timer_number codes, sends w id (record { id = id; time_val = 0 }))

module _ (codes : IoctlApi) (api : TimerApi) where
  -- Scheduling calls do not concern the module.
  unfoldable pub run_call : Window api.TimerList → State api → Call Command → Outcome (State api)
  run_call w d (set_scheduler p) = ok d
  run_call w d (set_affinity c) = ok d
  run_call w d open_device =
      update_call codes api (λ s. run_switches api s w.during) d w.task w.now open_file
      >>= λ (d', r). ok d'
  run_call w d (ioctl c) =
      update_call codes api (λ s. run_switches api s w.during) d w.task w.now
        (file_call_of codes w c)
      >>= λ (d', r). ok d'
  run_call w d close =
      update_call codes api (λ s. run_switches api s w.during) d w.task w.now release >>= λ (d', r).
      ok d'

  -- The calls of one thread, from the number `i` on.
  unfoldable pub run_calls :
      (ℕ → Window api.TimerList) → ℕ → State api → List (Call Command) → Outcome (State api)
  run_calls ws i d [] = ok d
  run_calls ws i d (c ∷ cs) = run_call (ws i) d c >>= λ d1.
      run_switches api d1 (ws i).after >>= λ d2. run_calls ws (suc i) d2 cs
