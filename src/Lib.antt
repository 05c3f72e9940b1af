-- ===== src/Lib.antt =====
-- T-Tex kernel: a Linux kernel module that times real-time threads, and what user programs compute
-- with its answers.
--
-- The module (ttex_kernel_update.c) keeps a hash map from thread ids to the data of their timers.
-- A user program opens the module's device and sends ioctl commands for its threads: START_TIMER
-- adds a thread to the map, MOD_TIMER_NEW gives its timer a budget, GET_TIMER starts and reads the
-- clock of a region of the program, DEL_TIMER stops the timer. A kprobe on `__switch_to` calls two
-- handlers at every context switch: one stops the timer of the thread that is switched out, the
-- other queues the timer of the thread that is switched in and adds up the time that it was away.
-- `timer_callback` marks a thread whose timer has expired. The user's side
-- (Kernel_Practice/ttex_profiler.h, profiler.h, profiler_update.h) computes with `timespec`
-- values.
--
-- Files:
-- - ThreadMap (ttex_kernel_update.c): `hashFunction`, `createNode`, `insert` and `get`. Pointers
--   are numbers and the map nodes stand in an explicit heap. Its children are the laws of the heap
--   (Heap), the list of a bucket (Chain), the list of entries that a map stands for (Refine,
--   Insert), the data that keys lead to (Info, Write, Lookup, Abstract), the map's limits
--   (Bounds), failed allocations (Unallocated), and insertions that other ones interrupt before
--   their write (Attach has the write, Overlap the rest).
-- - Timer: the kernel's timers as a record of functions with their documented laws, the readings
--   of `jiffies` and of the clock, and 64-bit sums and differences, which wrap around.
-- - Driver (ttex_kernel_update.c): the global variables, `pre_handler` and `post_handler`; Ioctl
--   has `etx_ioctl`, one function for each command; Expiry has `timer_callback`. The other
--   children are about switches (Switch, Isolation, Trace, Interleave), commands (Commands,
--   Restart, Race, Fresh), the times and budgets of a thread (Timing, Running), commands preempted
--   between two of their statements (Preempted), expiries (Triggered, Expired) and whole histories
--   (Safety, Runs). Machine is the module without buckets, nodes and pointers: what each command,
--   switch and expiry does to a partial function from ids to data; its children follow histories
--   in it (Reaches, Grown, Refines), the nodes (Nodes) and the marks of expiry (Unmarked). A
--   thread is called timed when its `timer_set` is 1 and its `timer_triggered` 0.
-- - Lifecycle (ttex_kernel_update.c): `ttex_kernel_init` with its error labels,
--   `ttex_kernel_exit`.
-- - Legacy (ttex_kernel.c): the earlier version of the module, with arrays in place of the map.
-- - Timespec (Kernel_Practice/ttex_profiler.h): `timespec_normalise` and what is built on it. A
--   `timespec` stands for a number of nanoseconds (Value); Loops and Bounded follow the loops on a
--   machine that is exact up to a bound.
-- - Practice (Kernel_Practice/user_to_kernel_time.c, Kernel_Practice/ioctl.cpp): a module that
--   answers with the kernel's time, and the functions that ask it. Programs has the programs that
--   time a call (ioctl.cpp, getpid_call.cpp, time_taken.c), over C's `double` and `ktime_t` as
--   parameters.
-- - Device: the file operations of the modules' device, which their handlers of commands are one
--   of, and the numbers of the commands, over the macros of linux/ioctl.h as a parameter.
-- - Profiler (Kernel_Practice/ttex_profiler.h): the OpenMP tool, which keeps for each thread the
--   list of the regions that it was in, with their times, and sends the budget of each region to
--   the module. Session runs its calls in the module of ttex_kernel_update.c; Budgets has what the
--   border of two regions comes to there, and Ended a thread's whole life.
-- - Tools (profiler_update.h, profiler.h): the older tools, as lists of system calls; Session runs
--   those of a thread in the module of ttex_kernel_update.c, between switches of any threads
--   (Calls, Life), and Team those of threads that begin in the module of ttex_kernel.c. Events has
--   the registration of the callbacks with the OpenMP runtime, a parameter, and Refused a runtime
--   that refuses one.
-- - Examples: concrete inputs and runs. Common: shared names, lists, integers, tests and outcomes.
--
-- State is passed explicitly. A function of the module gives an `Outcome`: a result, a fault (an
-- access outside every object), or a loop cut short. A `thread_data *` is the address of its map
-- node. The contents that `copy_from_user` leaves, whether it reported a failure, what `kmalloc`
-- gives, and the readings of the clocks are arguments; so is `schedule()`, a function on the
-- module's state, as other threads run in it.
--
-- Fuel: the walks along a bucket get one round more than the heap has nodes, and the loops of
-- `timespec_normalise` one more than the whole seconds in the nanoseconds. In both cases that is
-- more than the loop makes on a map that stands for entries, or on any `timespec`. A loop that
-- comes to the end of its fuel gives no result.
--
-- Integers: the module's times are natural numbers, with the wrap-around at 2 ^ 64 written out.
-- Thread ids are integers; the code does no arithmetic on them but the remainder and, in
-- ttex_kernel.c, the difference to the parent's id, which is taken without overflow. Overflow of a
-- signed `long` is undefined in C: what the machine makes of the result of an operation on the
-- fields of `timespec` is an argument, either the result itself or a fault where it is no `long`.
--
-- Not modelled: the lines logged by `printk` and `pr_info`; weak memory order of the atomic fields
-- and interleavings inside a handler other than those of Driver/Race, Driver/Preempted and
-- ThreadMap/Overlap; the kernel's functions themselves; the OpenMP callbacks of profiler.h that do
-- nothing, what the tools hand to the runtime when they start and log when they end, and the
-- tables of regions that the compiled program fills; kernel_prac.c, a function in assembly;
-- test.cpp, the recorded measurements, plots and build files.
pub mod Common
pub mod Timer
pub mod ThreadMap
pub mod Driver
pub mod Lifecycle
pub mod Legacy
pub mod Timespec
pub mod Device
pub mod Practice
pub mod Profiler
pub mod Tools
pub mod Examples
