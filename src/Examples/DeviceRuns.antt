-- ===== src/Examples/DeviceRuns.antt =====
-- System calls on the device, over one layout of the command numbers.
use ttex_kernel.Common.{ℕ, ◌+◌, ◌*◌, ◌/◌, ◌^◌, ◌≡◌, refl, arith, true, false, ok, pos}
use ttex_kernel.Timer.{plain_timers}
use ttex_kernel.ThreadMap.{hash_function, load}
use ttex_kernel.ThreadMap.Chain.{Entries}
use ttex_kernel.ThreadMap.Refine.{IsMap}
use ttex_kernel.Lifecycle.{is_negative}
use ttex_kernel.Driver.{State, Reply, no_reply}
use ttex_kernel.Device.{
  IoctlApi, IsIoctlApi, start_timer_number, tool_get_timer_number, Argument, update_call,
  unlocked_ioctl, request_of,
}
use ttex_kernel.Device.Numbers.{tool_get_timer_unheard}
use ttex_kernel.Device.Calls.{update_call-IsMap}
use ttex_kernel.Examples.Demo.{Timers, raw, two_entries, two-IsMap, driver, task, clock}
use ttex_kernel.Examples.SafetyRuns.{ok-KeepsMap}

abbrev number : (dir kind nr size : ℕ) → ℕ
number dir kind nr size = dir * 2 ^ 40 + size * 2 ^ 24 + kind * 2 ^ 8 + nr

-- The direction at the top, then the size, the type and the number.
abbrev pub codes : IoctlApi
codes = record { iow = number 1; ior = number 2; iowr = number 3; ioc_dir = λ n. n / 2 ^ 40 }

pub codes-IsIoctlApi : IsIoctlApi codes
codes-IsIoctlApi = record {
  dir_of_iow = λ kind nr size hk hn hs. omega arith;
  dir_of_ior = λ kind nr size hk hn hs. omega arith;
  dir_of_iowr = λ kind nr size hk hn hs. omega arith;
}

abbrev argument : Argument Timers
argument = record {
  id = record { content = pos 8; failed = false };
  updated = record { content = record { id = pos 8; time_val = 0 }; failed = false };
  receive = record {
    content = record { id = pos 8; time_val_to_sub = 0; time_val = 0 };
    failed = false;
  };
  sent = true;
  temp = 400;
  raw = raw;
  node = 300;
}

tool_get_timer_unheard_example :
    update_call codes plain_timers ok driver
      (task 7)
      (clock 1 1)
      (unlocked_ioctl (tool_get_timer_number codes, argument))
    ≡ ok (driver, no_reply 0)
tool_get_timer_unheard_example =
    tool_get_timer_unheard codes codes-IsIoctlApi plain_timers ok driver (task 7) (clock 1 1)
      argument

update_call-IsMap_example :
    (d' : State plain_timers) × (reply : Reply) × (es' : Entries) × (update_call codes plain_timers
        ok driver
        (task 8)
        (clock 1 1)
        (unlocked_ioctl (start_timer_number codes, argument))
      ≡ ok (d', reply))
    × IsMap d'.thread_map es'
    × (is_negative reply.ret ≡ false)
unfolding request_of hash_function load
update_call-IsMap_example =
    update_call-IsMap codes plain_timers ok driver two_entries (task 8) (clock 1 1)
      (unlocked_ioctl (start_timer_number codes, argument)) ok-KeepsMap two-IsMap
      ((8, refl), omega arith, omega arith, refl)
