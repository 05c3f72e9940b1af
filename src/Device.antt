-- ===== src/Device.antt =====
-- The device `/dev/etx_device`: its file operations, and the numbers of the ioctl commands. The
-- macros that make the numbers are those of linux/ioctl.h, which is no part of the repository: a
-- parameter, with the documented place of the direction in a number.
pub mod Numbers
pub mod Calls
use ttex_kernel.Common.{ℕ, ◌^◌, ◌<◌, ◌≡◌, Bool, ◌==◌, if◌then◌else◌, ℤ, pos, Outcome, ok, ◌>>=◌}
use ttex_kernel.Timer.{TimerApi, Clock, Task, Copied, to_i64}
use ttex_kernel.ThreadMap.{Ptr, ThreadData}
use ttex_kernel.Driver.{UpdatedTimer, ReceiveTimer, Request, Reply, no_reply, State, Data}
use ttex_kernel.Driver.Ioctl.{etx_ioctl}
use ttex_kernel.Legacy
use ttex_kernel.Practice

-- The system calls on the open file; `R` is what an ioctl brings.
pub data FileCall (R : Type 0) : Type 0 where
  open_file : FileCall R
  release : FileCall R
  read : (len : ℕ) → FileCall R
  write : (len : ℕ) → FileCall R
  unlocked_ioctl : R → FileCall R

abbrev pub etx_open : ℤ
etx_open = pos 0

abbrev pub etx_release : ℤ
etx_release = pos 0

-- Nothing is read, whatever the length.
abbrev pub etx_read : (len : ℕ) → ℤ
etx_read len = pos 0

-- The length that was asked for comes back, and nothing is written.
abbrev pub etx_write : (len : ℕ) → ℤ
etx_write len = to_i64 len

-- The table of the operations, over the module's own handler of commands.
unfoldable pub file_call :
    {S R A : Type 0} (plain : ℤ → A) (ioctl : S → R → Outcome (S × A))
    → S
    → FileCall R
    → Outcome (S × A)
file_call plain ioctl s open_file = ok (s, plain etx_open)
file_call plain ioctl s release = ok (s, plain etx_release)
file_call plain ioctl s (read len) = ok (s, plain (etx_read len))
file_call plain ioctl s (write len) = ok (s, plain (etx_write len))
file_call plain ioctl s (unlocked_ioctl r) = ioctl s r

-- `_IOW`, `_IOR` and `_IOWR` at a type, a number and a size, and `_IOC_DIR`.
pub record IoctlApi : Type 0 where
  pub iow : (kind nr size : ℕ) → ℕ
  pub ior : (kind nr size : ℕ) → ℕ
  pub iowr : (kind nr size : ℕ) → ℕ
  pub ioc_dir : ℕ → ℕ

-- The direction stands above the size, which stands above the two others.
pub record IsIoctlApi (codes : IoctlApi) : Type 0 where
  pub dir_of_iow :
      (kind nr size : ℕ)
      → kind < 2 ^ 16
      → nr < 2 ^ 8
      → size < 2 ^ 14
      → codes.ioc_dir (codes.iow kind nr size) ≡ 1
  pub dir_of_ior :
      (kind nr size : ℕ)
      → kind < 2 ^ 16
      → nr < 2 ^ 8
      → size < 2 ^ 14
      → codes.ioc_dir (codes.ior kind nr size) ≡ 2
  pub dir_of_iowr :
      (kind nr size : ℕ)
      → kind < 2 ^ 16
      → nr < 2 ^ 8
      → size < 2 ^ 14
      → codes.ioc_dir (codes.iowr kind nr size) ≡ 3

-- The size of a pointer, and the characters; of `'UT'` gcc makes `'U' * 256 + 'T'`.
abbrev pub pointer : ℕ
pointer = 8

module _ (codes : IoctlApi) where
  abbrev pub start_timer_number : ℕ
  start_timer_number = codes.iow 83 2 pointer

  abbrev pub mod_timer_number : ℕ
  mod_timer_number = codes.iow 85 3 pointer

  abbrev pub del_timer_number : ℕ
  del_timer_number = codes.iow 68 3 pointer

  abbrev pub mod_timer_new_number : ℕ
  mod_timer_new_number = codes.iow 21844 3 pointer

  abbrev pub get_timer_number : ℕ
  get_timer_number = codes.iowr 82 3 pointer

  -- GET_TIMER as ttex_profiler.h has it.
  abbrev pub tool_get_timer_number : ℕ
  tool_get_timer_number = codes.ior 82 3 pointer

-- What a command finds behind the caller's pointer, read as each of the structures, and what
-- `kmalloc` gives it.
pub record Argument (T : Type 0) : Type 0 where
  pub id : Copied ℤ
  pub updated : Copied UpdatedTimer
  pub receive : Copied ReceiveTimer
  pub sent : Bool
  pub temp : Ptr
  pub raw : ThreadData T
  pub node : Ptr

-- `switch(cmd)`.
unfoldable pub request_of : IoctlApi → {T : Type 0} → (cmd : ℕ) → Argument T → Request T
request_of codes cmd arg =
    if cmd == start_timer_number codes
    then Request.start_timer arg.id arg.temp arg.raw arg.node
    else if cmd == mod_timer_number codes
    then Request.mod_timer arg.id
    else if cmd == del_timer_number codes
    then Request.del_timer arg.id
    else if cmd == mod_timer_new_number codes
    then Request.mod_timer_new arg.updated
    else if cmd == get_timer_number codes
    then Request.get_timer arg.receive arg.sent
    else Request.default

module _ (codes : IoctlApi) (api : TimerApi) (schedule : State api → Outcome (State api)) where
  -- A system call on the device of ttex_kernel_update.c.
  unfoldable pub update_call :
      State api → Task → Clock → FileCall (ℕ × Argument api.TimerList) → Outcome (State api × Reply)
  unfolding file_call
  update_call d task now call =
      file_call (λ r. record (no_reply 0) { ret = r })
        (λ s (cmd, arg). etx_ioctl api schedule s task now (request_of codes cmd arg)) d call

-- A system call on the device of ttex_kernel.c; every command returns 0.
unfoldable pub legacy_call :
    (api : TimerApi) → Legacy.State api → FileCall Legacy.Request → Outcome (Legacy.State api × ℤ)
unfolding file_call
legacy_call api d call =
    file_call (λ r. r) (λ s r. Legacy.etx_ioctl api s r >>= λ s'. ok (s', pos 0)) d call

-- A system call on the device of user_to_kernel_time.c, whose state is `value`.
unfoldable pub practice_call : (value : ℤ) → Clock → FileCall Practice.Request → Outcome (ℤ × ℤ)
unfolding file_call
practice_call value now call =
    file_call (λ r. r) (λ v r. let a = Practice.etx_ioctl v now r in ok (a.value, a.ret)) value call
