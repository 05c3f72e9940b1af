-- ===== src/Examples/BudgetRuns.antt =====
-- Thread 7 at the border of two regions, with the module's state behind the calls.
use ttex_kernel.Common.{ℕ, ◌+◌, ◌/◌, ◌%◌, ◌≡◌, refl, true, some, List, [], ◌∷◌, ok, pos, arith}
use ttex_kernel.Timer.{plain_timers, plain_timers-IsTimerApi, u64_mod, u32_mod}
use ttex_kernel.ThreadMap.{ThreadData, get, hash_function, load, walk, modify}
use ttex_kernel.ThreadMap.Info.{info_at, write_info}
use ttex_kernel.ThreadMap.Write.{write_info-IsMap}
use ttex_kernel.Timespec.{Timespec}
use ttex_kernel.Driver.{Driver, Data, State}
use ttex_kernel.Driver.Switch.{Stay}
use ttex_kernel.Driver.Isolation.{out, in', InRange}
use ttex_kernel.Driver.Trace.{trace}
use ttex_kernel.Driver.Running.{off_jiffies, Queued}
use ttex_kernel.Profiler.{LoopDetails, ThreadInfo, Call, ompt_test, region_of}
use ttex_kernel.Profiler.Session.{run_calls}
use ttex_kernel.Profiler.Budgets.Armed.{border_armed}
use ttex_kernel.Profiler.Budgets.Kept.{border_kept}
use ttex_kernel.Tools.Session.{Window}
use ttex_kernel.Examples.Demo.{Timers, raw, fresh, two, two_entries, two-IsMap, driver, task, clock}
use ttex_kernel.Examples.DeviceRuns.{codes, codes-IsIoctlApi}
use ttex_kernel.Examples.ToolRuns.{codes-AreApart}
use ttex_kernel.Examples.ProfilerRuns.{
  node, tables, memory, split_at, found, begun_thread, begun_thread-Running,
}

-- Thread 7 yields at each of its calls, and makes way for thread 57 behind it.
abbrev windows : ℕ → Window Timers
windows i = record {
  task = task 7;
  now = clock 10 1000;
  temp = 400;
  raw = raw;
  node = 300;
  during = out (task 7) (clock 20 2000) ∷ in' (task 7) (clock 30 3000) ∷ [];
  after =
      out (task 7) (clock 40 4000)
      ∷ in' (task 57) (clock 40 4000)
      ∷ out (task 57) (clock 45 4500)
      ∷ in' (task 7) (clock 45 4500)
      ∷ [];
}

windows-InRange : (i : ℕ) → InRange (windows i).during × InRange (windows i).after
unfolding hash_function
windows-InRange i =
    (((7, refl), ((7, refl), tt)), ((7, refl), ((7, refl), ((7, refl), ((7, refl), tt)))))

abbrev during_stay : Stay
during_stay = record { from = clock 20 2000; to = clock 30 3000 }

abbrev after_stay : Stay
after_stay = record { from = clock 40 4000; to = clock 45 4500 }

seven : info_at two (pos 7) ≡ ok (some fresh)
unfolding info_at get walk load hash_function
seven = refl

-- The region has 20 milliseconds, and the module is asked for 200.
border_armed_example :
    (info' : ThreadInfo) × (calls : List Call) × (d' : State plain_timers) × (t' : Data
      plain_timers)
    × (ompt_test tables memory begun_thread (pos 7) (split_at (pos 0) 3000000000 3000000010)
        ≡ ok (info', calls))
    × (run_calls codes plain_timers windows 0 driver calls ≡ ok d')
    × (info_at d'.thread_map (pos 7) ≡ ok (some t'))
    × (plain_timers.timer_pending t'.thread_timer ≡ true)
    × (plain_timers.expires t'.thread_timer
        ≡ (30
            + plain_timers.msecs_to_jiffies ((20000000 / 100000) % u32_mod)
            + off_jiffies (after_stay ∷ []))
          % u64_mod)
unfolding trace hash_function region_of
border_armed_example =
    border_armed codes codes-IsIoctlApi codes-AreApart plain_timers plain_timers-IsTimerApi tables
      memory windows windows-InRange begun_thread (pos 7) (split_at (pos 0) 3000000000 3000000010)
      found 20000000 driver two_entries fresh during_stay (after_stay ∷ []) begun_thread-Running
      refl refl refl (omega arith) (omega arith) two-IsMap seven
      (record { set = refl; running = refl }) refl refl (omega arith)

-- A region with a budget of one whole second, and thread 7 with a timer for jiffy 4000.
abbrev whole_second : Timespec
whole_second = record { tv_sec = pos 1; tv_nsec = pos 0 }

abbrev second_tables : List (List LoopDetails)
second_tables =
    (record {
      loop_id = pos 0;
      splits_in_iter = pos 1;
      sub_loop_id = pos 0;
      expected_execution = node whole_second ∷ [];
    }
      ∷ [])
    ∷ []

abbrev queue : ThreadData Timers → ThreadData Timers
queue t = record t { thread_timer = (4000, true) }

abbrev budgeted : Driver Timers
budgeted = record driver { thread_map = write_info two 100 queue }

budgeted_seven : info_at (write_info two 100 queue) (pos 7) ≡ ok (some (queue fresh))
unfolding info_at get walk load hash_function write_info modify
budgeted_seven = refl

queue-Queued : Queued plain_timers plain_timers-IsTimerApi (queue fresh) 4000
queue-Queued = record {
  timed = record { set = refl; running = refl };
  settled = refl;
  queued = refl;
  expiry = refl;
  small = omega arith;
}

border_kept_example :
    (info' : ThreadInfo) × (calls : List Call) × (d' : State plain_timers) × (t' : Data
      plain_timers)
    × (ompt_test second_tables memory begun_thread (pos 7) (split_at (pos 0) 3000000000 3000000010)
        ≡ ok (info', calls))
    × (run_calls codes plain_timers windows 0 budgeted calls ≡ ok d')
    × (info_at d'.thread_map (pos 7) ≡ ok (some t'))
    × Queued plain_timers plain_timers-IsTimerApi t' (
        (4000
          + off_jiffies (after_stay ∷ [])
          + off_jiffies (after_stay ∷ [])
          + off_jiffies (after_stay ∷ []))
        % u64_mod)
unfolding trace hash_function region_of
border_kept_example =
    border_kept codes codes-IsIoctlApi codes-AreApart plain_timers plain_timers-IsTimerApi
      second_tables memory windows windows-InRange begun_thread (pos 7)
      (split_at (pos 0) 3000000000 3000000010) (record (node whole_second) { loop_id = pos 4 }) 0
      budgeted two_entries (queue fresh) 4000 (after_stay ∷ []) (after_stay ∷ []) (after_stay ∷ [])
      begun_thread-Running refl refl refl (omega arith)
      (write_info-IsMap two 100 queue two_entries two-IsMap) budgeted_seven queue-Queued refl refl
      refl (omega arith) (omega arith) (omega arith)
