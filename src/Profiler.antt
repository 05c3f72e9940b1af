-- ===== src/Profiler.antt =====
-- Kernel_Practice/ttex_profiler.h, the OpenMP tool that times the regions of a program: its callbacks
-- and `ompt_test`, which the compiled program calls at the borders of regions. What the
-- structures of GET_TIMER hold behind the call and what the runtime's memory holds are arguments; the system calls that a
-- callback makes are listed in their order.
pub mod Regions
pub mod Session
pub mod Budgets
pub mod Ended
use ttex_kernel.Common.{
  ℕ, zero, suc, ◌+◌, ◌-◌, ◌/◌, ◌%◌, ◌^◌, Bool, true, false, ◌&&◌, Option, none, some, List, [], ◌∷◌,
  ◌++◌, ◌==◌, if◌then◌else◌, ltb, get_elem?, ℤ, pos, negsuc, eq_ℤ, Outcome, ok, fault, ◌>>=◌,
  of_option,
}
use ttex_kernel.Timer.{to_i64, u64_mod, u32_mod, to_u64}
use ttex_kernel.ThreadMap.{Ptr, null, negated}
use ttex_kernel.Driver.{UpdatedTimer}
use ttex_kernel.Lifecycle.{is_negative}
use ttex_kernel.Timespec.{Timespec, get_region_elapsed_time}

-- `struct timeout_node`: a region of the program, its budget and its time.
pub record TimeoutNode : Type 0 where
  pub parallel_region_id : ℤ
  pub sub_region_id : ℤ
  pub sections_id : ℤ
  pub loop_id : ℤ
  pub sub_timer_id : ℤ
  pub wcet : Timespec
  pub et : Timespec
  pub timer_set_flag : Bool

-- `struct loop_details`.
pub record LoopDetails : Type 0 where
  pub loop_id : ℤ
  pub splits_in_iter : ℤ
  pub sub_loop_id : ℤ
  pub expected_execution : List TimeoutNode

-- `struct thread_info`; `region_data` is its `data`, a pointer into the runtime's memory.
pub record ThreadInfo : Type 0 where
  pub id : ℤ
  pub kid : ℤ
  pub fd : ℤ
  pub counter : ℤ
  pub region_data : Ptr
  pub thread_current_timeout : List TimeoutNode

-- The system calls of the callbacks.
pub data Call : Type 0 where
  set_scheduler : (priority : ℤ) → Call
  set_affinity : (core : ℤ) → Call
  open_device : Call
  start_timer : (id : ℤ) → Call
  get_timer : Call
  mod_timer_new : UpdatedTimer → Call

-- The conversion of `uint64_t` to `int`.
abbrev pub to_i32 : ℕ → ℤ
to_i32 n = let m = n % u32_mod in if ltb m (2 ^ 31) then pos m else negsuc (u32_mod - m - 1)

-- `a[i]`, where an index outside is a fault.
abbrev pub nth {ℓ} : {A : Type ℓ} → List A → ℤ → Outcome A
nth a (pos i) = of_option (get_elem? a i)
nth a (negsuc i) = fault

-- `v[v.size()-1]`, and a write to it.
unfoldable pub back {ℓ} : {A : Type ℓ} → List A → Outcome A
back [] = fault
back (x ∷ []) = ok x
back (x ∷ (y ∷ ys)) = back (y ∷ ys)

unfoldable pub set_back {ℓ} : {A : Type ℓ} → (A → A) → List A → Outcome (List A)
set_back f [] = fault
set_back f (x ∷ []) = ok (f x ∷ [])
set_back f (x ∷ (y ∷ ys)) = set_back f (y ∷ ys) >>= λ zs. ok (x ∷ zs)

-- C's quotient, which rounds towards zero.
abbrev pub quotient : ℤ → ℕ → ℤ
quotient (pos n) k = pos (n / k)
quotient (negsuc n) k = negated (suc n / k)

-- `resetTimer`; `tid` is the thread's id.
unfoldable pub reset_timer : (tid : ℤ) → Timespec → Call
reset_timer tid t =
    mod_timer_new (record { id = tid; time_val = to_u64 (quotient t.tv_nsec 100000) })

abbrev pub reading_of : ℕ → Timespec
reading_of time = record { tv_sec = pos 0; tv_nsec = to_i64 time }

abbrev pub timed : (stop : ℕ) → TimeoutNode → TimeoutNode
timed stop n = record n { et = get_region_elapsed_time n.et (reading_of stop) }

-- The region that ends: `stop` is the `time_val` that `receiveTime` returns: that of its
-- local structure, which is not initialised, behind the ioctl.
unfoldable pub end_region : List TimeoutNode → (stop : ℕ) → Outcome (List TimeoutNode × List Call)
end_region v stop = back v >>= λ n.
    let closed = set_back (timed stop) v >>= λ v'. ok (v', get_timer ∷ []) in
    if n.timer_set_flag then closed else ok (v, [])

abbrev pub begun : (start : ℕ) → TimeoutNode → TimeoutNode
begun start n = record n { timer_set_flag = true; et = reading_of start }

-- The region that begins, pushed behind the others.
unfoldable pub begin_region :
    List TimeoutNode → TimeoutNode → (tid : ℤ) → (start : ℕ) → List TimeoutNode × List Call
begin_region v n tid start = (v ++ (begun start n ∷ []), get_timer ∷ reset_timer tid n.wcet ∷ [])

-- Both, at the border of two regions.
unfoldable pub cross :
    ThreadInfo → TimeoutNode → (tid : ℤ) → (stop start : ℕ) → Outcome (ThreadInfo × List Call)
cross info n tid stop start = end_region info.thread_current_timeout stop >>= λ (v, calls).
    let (v', calls') = begin_region v n tid start in
    ok (record info { thread_current_timeout = v' }, calls ++ calls')

-- The arguments of `ompt_test`, and what its two calls of `receiveTime` return. The module of
-- ttex_kernel_update.c does not know the number that they send and writes nothing, so that these are
-- any values that the local structures hold.
pub record Border : Type 0 where
  pub parallel_region_id : ℤ
  pub sub_id : ℤ
  pub loop_id : ℤ
  pub split_id : ℤ
  pub stop : ℕ
  pub start : ℕ

abbrev pub minus_one : ℤ
minus_one = negsuc 0

abbrev pub is_none : Border → Bool
is_none b =
    eq_ℤ b.parallel_region_id minus_one
    && eq_ℤ b.sub_id minus_one
    && eq_ℤ b.loop_id minus_one
    && eq_ℤ b.split_id minus_one

-- `value_at` reads the `value` of an `ompt_data_t` in the runtime's memory.
module _ (loop_execution : List (List LoopDetails)) (value_at : Ptr → Outcome ℕ) where
  unfoldable pub region_of : ThreadInfo → Border → Outcome TimeoutNode
  region_of info b =
      (if info.region_data == null
        then ok b.parallel_region_id
        else (value_at info.region_data >>= λ x. ok (to_i32 x)))
      >>= λ region. nth loop_execution region >>= λ loops. nth loops b.sub_id >>= λ details.
          nth details.expected_execution b.split_id >>= λ n. ok (record n { loop_id = b.loop_id })

  unfoldable pub ompt_test : ThreadInfo → (tid : ℤ) → Border → Outcome (ThreadInfo × List Call)
  ompt_test info tid b =
      let crossed = region_of info b >>= λ n. cross info n tid b.stop b.start in
      if is_none b then ok (info, []) else crossed

-- `on_ompt_callback_parallel_begin`: also the `value` that it stores in the region's data.
unfoldable pub on_parallel_begin :
    (parallel_begin : TimeoutNode)
    → ThreadInfo
    → (tid : ℤ) → (id : ℕ) → (stop start : ℕ) → Outcome (ℕ × ThreadInfo × List Call)
on_parallel_begin parallel_begin info tid id stop start =
    cross info parallel_begin tid stop start >>= λ (info', calls).
    ok ((id + (u32_mod - 1)) % u32_mod, info', calls)

-- `on_ompt_callback_work`.
abbrev pub on_work : ThreadInfo → (parallel_data : Ptr) → ThreadInfo
on_work info parallel_data = record info { region_data = parallel_data }

-- The counters of `my_core_id` and `my_next_id`.
pub record Counters : Type 0 where
  pub core : ℕ
  pub next : ℕ

abbrev pub core_of : ℤ → ℤ
core_of (pos n) = pos (n % 6)
core_of (negsuc n) = negated (suc n % 6)

abbrev pub thread_priority : ℤ
thread_priority = pos 10

-- `on_ompt_callback_thread_begin`: the data that the thread's pointer leads to, if the device opens.
unfoldable pub on_thread_begin :
    (thread_begin : TimeoutNode)
    → Counters
    → (fd tid : ℤ) → (start : ℕ) → Counters × Option ThreadInfo × List Call
on_thread_begin thread_begin c fd tid start =
    let c' : Counters = record { core = (c.core + 1) % u64_mod; next = (c.next + 1) % u64_mod } in
    let setup =
      set_scheduler thread_priority ∷ set_affinity (core_of (to_i32 c.core)) ∷ open_device ∷ [] in
    let (v, calls) = begin_region [] thread_begin tid start in
    if is_negative fd then (c', none, setup) else (
      c',
      some (record {
        id = to_i32 c.next;
        kid = pos 0;
        fd = fd;
        counter = pos 0;
        region_data = null;
        thread_current_timeout = v;
      }),
      setup ++ (start_timer tid ∷ calls),
    )
