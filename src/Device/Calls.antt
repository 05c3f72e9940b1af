-- ===== src/Device/Calls.antt =====
-- The system calls on the device of ttex_kernel_update.c, and the form of the map.
use ttex_kernel.Common.{ℕ, ◌^◌, ◌<◌, ◌≡◌, refl, arith, false, ok, Outcome}
use ttex_kernel.Timer.{TimerApi, Clock, Task}
use ttex_kernel.ThreadMap.Chain.{Entries}
use ttex_kernel.ThreadMap.Refine.{IsMap}
use ttex_kernel.Lifecycle.{is_negative}
use ttex_kernel.Driver.{State, Reply}
use ttex_kernel.Driver.Safety.{IsValid, KeepsMap, etx_ioctl-IsMap}
use ttex_kernel.Device.{
  IoctlApi, Argument, request_of, update_call, FileCall, open_file, release, read, write,
  unlocked_ioctl, file_call,
}

-- A command is valid in the state that it finds, and the length of a write fits `ssize_t`.
abbrev pub IsValidCall :
    IoctlApi → (api : TimerApi) → State api → FileCall (ℕ × Argument api.TimerList) → Type 0
IsValidCall codes api d open_file = Unit
IsValidCall codes api d release = Unit
IsValidCall codes api d (read len) = Unit
IsValidCall codes api d (write len) = len < 2 ^ 63
IsValidCall codes api d (unlocked_ioctl (cmd, arg)) = IsValid d (request_of codes cmd arg)

module _ (codes : IoctlApi) (api : TimerApi) where
  -- Every system call on the device, with a valid command or a length of a write below 2 ^ 63, on a
  -- map that stands for some entries, succeeds, returns no negative number and leaves such a map,
  -- if `schedule()` does.
  pub update_call-IsMap :
      (schedule : State api → Outcome (State api)) (d : State api) (es : Entries) (task : Task)
      (now : Clock) (call : FileCall (ℕ × Argument api.TimerList))
      → KeepsMap api schedule
      → IsMap d.thread_map es
      → IsValidCall codes api d call
      → (d' : State api) × (reply : Reply) × (es' : Entries) × (update_call codes api schedule d
            task now call
          ≡ ok (d', reply))
        × IsMap d'.thread_map es'
        × (is_negative reply.ret ≡ false)
  unfolding update_call file_call
  update_call-IsMap schedule d es task now open_file keep is v = (d, _, es, refl, is, refl)
  update_call-IsMap schedule d es task now release keep is v = (d, _, es, refl, is, refl)
  update_call-IsMap schedule d es task now (read len) keep is v = (d, _, es, refl, is, refl)
  update_call-IsMap schedule d es task now (write len) keep is v =
      (d, _, es, refl, is, ground arith)
  update_call-IsMap schedule d es task now (unlocked_ioctl (cmd, arg)) keep is v =
      let (d', reply, es', e, is', r) =
        etx_ioctl-IsMap api schedule d es task now (request_of codes cmd arg) keep is v in
      (d', reply, es', e, is', rw r)
