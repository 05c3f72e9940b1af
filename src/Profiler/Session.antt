-- ===== src/Profiler/Session.antt =====
-- The system calls of ttex_profiler.h in the module of ttex_kernel_update.c, with switches of any
-- threads behind each call and while a command yields.
use ttex_kernel.Common.{ℕ, suc, List, [], ◌∷◌, pos, Outcome, ok, ◌>>=◌}
use ttex_kernel.Timer.{TimerApi}
use ttex_kernel.Driver.{State}
use ttex_kernel.Driver.Isolation.{run_switches}
use ttex_kernel.Device.{
  IoctlApi, Argument, update_call, FileCall, open_file, unlocked_ioctl, start_timer_number,
  mod_timer_new_number, tool_get_timer_number,
}
use ttex_kernel.Tools.Session.{Window, sends}
use ttex_kernel.Profiler.{
  Call, set_scheduler, set_affinity, open_device, start_timer, get_timer, mod_timer_new,
}

module _ (codes : IoctlApi) (api : TimerApi) where
  abbrev on_device :
      Window api.TimerList → State api → FileCall (ℕ × Argument api.TimerList) → Outcome (State api)
  on_device w d call =
      update_call codes api (λ s. run_switches api s w.during) d w.task w.now call
      >>= λ (d', reply). ok d'

  -- The caller's memory for each command; the tool's structure for GET_TIMER is not set.
  unfoldable pub run_call : Window api.TimerList → State api → Call → Outcome (State api)
  run_call w d (set_scheduler priority) = ok d
  run_call w d (set_affinity core) = ok d
  run_call w d open_device = on_device w d open_file
  run_call w d (start_timer id) =
      on_device w d
        (unlocked_ioctl (start_timer_number codes, sends w id (record { id = id; time_val = 0 })))
  run_call w d get_timer = on_device w d (
      unlocked_ioctl
        (tool_get_timer_number codes, sends w (pos 0) (record { id = pos 0; time_val = 0 })))
  run_call w d (mod_timer_new u) =
      on_device w d (unlocked_ioctl (mod_timer_new_number codes, sends w u.id u))

  -- The calls of one thread, from the number `i` on. The scheduling calls do not concern the module.
  unfoldable pub run_calls :
      (ℕ → Window api.TimerList) → ℕ → State api → List Call → Outcome (State api)
  run_calls ws i d [] = ok d
  run_calls ws i d (c ∷ cs) = run_call (ws i) d c >>= λ d1.
      run_switches api d1 (ws i).after >>= λ d2. run_calls ws (suc i) d2 cs
