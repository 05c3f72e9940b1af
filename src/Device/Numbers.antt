-- ===== src/Device/Numbers.antt =====
-- The numbers of GET_TIMER on both sides of the device.
use ttex_kernel.Common.{ℕ, ◌^◌, ◌<◌, ◌==◌, false, ◌≡◌, arith, ◌≢◌, ok, Outcome, ne→==, sym, ◌∙◌, ap}
use ttex_kernel.Timer.{TimerApi, Clock, Task}
use ttex_kernel.Driver.{State, Request, no_reply}
use ttex_kernel.Driver.Ioctl.{etx_ioctl}
use ttex_kernel.Device.{
  IoctlApi, IsIoctlApi, pointer, get_timer_number, tool_get_timer_number, Argument, request_of,
  update_call, unlocked_ioctl, file_call,
}

module _ (codes : IoctlApi) (laws : IsIoctlApi codes) where
  reads : codes.ioc_dir (tool_get_timer_number codes) ≡ 2
  reads = laws.dir_of_ior 82 3 pointer (omega arith) (omega arith) (omega arith)

  -- A number with another direction is another number.
  by_direction : (n d : _) → codes.ioc_dir n ≡ d → d ≢ 2 → tool_get_timer_number codes ≢ n
  by_direction n d e ne h = ne (sym e ∙ ap codes.ioc_dir (sym h) ∙ reads)

  iow_apart :
      (kind nr : ℕ)
      → kind < 2 ^ 16
      → nr < 2 ^ 8
      → (tool_get_timer_number codes == codes.iow kind nr pointer) ≡ false
  iow_apart kind nr hk hn =
      ne→== _ _
        (by_direction _ 1 (laws.dir_of_iow kind nr pointer hk hn (omega arith)) (omega arith))

  iowr_apart : (tool_get_timer_number codes == get_timer_number codes) ≡ false
  iowr_apart = ne→== _ _ (
      by_direction _ 3 (laws.dir_of_iowr 82 3 pointer (omega arith) (omega arith) (omega arith))
        (omega arith))

  request_of-default :
      {T : Type 0} (arg : Argument T)
      → request_of codes (tool_get_timer_number codes) arg ≡ Request.default
  unfolding request_of
  request_of-default arg = rw (
    iow_apart 83 2 (omega arith) (omega arith),
    iow_apart 85 3 (omega arith) (omega arith),
    iow_apart 68 3 (omega arith) (omega arith),
    iow_apart 21844 3 (omega arith) (omega arith),
    iowr_apart,
  )

  -- The command number that ttex_profiler.h has for GET_TIMER reaches no command of the module,
  -- where a number shows its direction: the call returns 0, changes nothing and copies nothing to
  -- the caller.
  pub tool_get_timer_unheard :
      (api : TimerApi) (schedule : State api → Outcome (State api)) (d : State api) (task : Task)
      (now : Clock) (arg : Argument api.TimerList)
      → update_call codes api schedule d task now
          (unlocked_ioctl (tool_get_timer_number codes, arg))
        ≡ ok (d, no_reply 0)
  unfolding update_call file_call etx_ioctl
  tool_get_timer_unheard api schedule d task now arg = rw (request_of-default arg)
