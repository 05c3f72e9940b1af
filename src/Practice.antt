-- ===== src/Practice.antt =====
-- Kernel_Practice/user_to_kernel_time.c, a module that answers with the kernel's time, and the
-- functions of Kernel_Practice/ioctl.cpp that call it.
pub mod Interval
pub mod Unload
pub mod Programs
pub mod Measured
use ttex_kernel.Common.{
  ℕ, zero, suc, ◌+◌, ◌-◌, ◌*◌, ◌/◌, ◌%◌, Bool, true, false, not, ℤ, pos, negsuc, ◌+ℤ◌, scale,
}
use ttex_kernel.Timer.{to_u64, sub64, Clock, Copied}
use ttex_kernel.Driver.{logged}
use ttex_kernel.Lifecycle.{Answers, Held, nothing_held, setup_device, remove_device}
use ttex_kernel.Timespec.{nsec_per_sec, Timespec}

-- `struct receive_timer`.
pub record ReceiveTimer : Type 0 where
  pub time_val_to_sub : ℕ
  pub time_val : ℕ

-- The commands, each with what it reads and whether its `copy_to_user` succeeds.
pub data Request : Type 0 where
  start_timer : Copied ℤ → Request
  get_timer : Copied ReceiveTimer → (sent : Bool) → Request
  ret_timer : (sent : Bool) → Request
  default : Request

-- What a command hands to `copy_to_user`.
pub data Sent : Type 0 where
  nothing : Sent
  timer : ReceiveTimer → Sent
  nanoseconds : ℕ → Sent

-- The global `value` behind a command, its return value, what it sends, and the errors it logs.
pub record Answered : Type 0 where
  pub value : ℤ
  pub ret : ℤ
  pub out : Sent
  pub errors : ℕ

-- RET_TIMER reads the clock two more times, for the log alone.
unfoldable pub etx_ioctl : (value : ℤ) → Clock → Request → Answered
etx_ioctl value now (Request.start_timer id) = record {
  value = id.content;
  ret = pos 0;
  out = nothing;
  errors = logged id.failed;
}
etx_ioctl value now (Request.get_timer req sent) = record {
  value = value;
  ret = pos 0;
  out = timer (record (req.content) { time_val = sub64 now.ktime req.content.time_val_to_sub });
  errors = logged req.failed + logged (not sent);
}
etx_ioctl value now (Request.ret_timer sent) = record {
  value = value;
  ret = pos 0;
  out = nanoseconds now.ktime;
  errors = logged (not sent);
}
etx_ioctl value now Request.default = record {
  value = value;
  ret = pos 0;
  out = nothing;
  errors = 0;
}

abbrev pub received : ReceiveTimer → Sent → ReceiveTimer
received old nothing = old
received old (timer r) = r
received old (nanoseconds n) = old

-- `receiveTime` of ioctl.cpp, whose ioctl runs the module's handler with copies that succeed;
-- `old` is what the local structure first holds as `time_val`.
unfoldable pub receive_time : (value : ℤ) → Clock → (old : ℕ) → Timespec → ReceiveTimer
unfolding etx_ioctl
receive_time value now old t =
    let rtime : ReceiveTimer = record {
      time_val_to_sub = to_u64 (scale (1000 * 1000 * 1000) t.tv_sec +ℤ t.tv_nsec);
      time_val = old;
    } in
    let req : Copied ReceiveTimer = record { content = rtime; failed = false } in
    received rtime (etx_ioctl value now (Request.get_timer req true)).out

-- `returnKernelSubTime`.
unfoldable pub return_kernel_sub_time : (value : ℤ) → Clock → (old : ℕ) → Timespec → Timespec
unfolding receive_time
return_kernel_sub_time value now old test =
    let t1 = receive_time value now old test in
    record { tv_sec = pos (t1.time_val / nsec_per_sec); tv_nsec = pos (t1.time_val % nsec_per_sec) }

-- The state is what the module holds of the kernel, and the return value.
unfoldable pub ktime_sub_module_init : Answers → Held × ℤ
unfolding setup_device
ktime_sub_module_init a = setup_device a nothing_held

unfoldable pub ktime_sub_module_exit : Held → Held
unfolding remove_device
ktime_sub_module_exit h = remove_device h
