-- ===== src/Examples/EndRuns.antt =====
-- The whole life of thread 8 under ttex_profiler.h, behind threads 7 and 57.
use ttex_kernel.Common.{◌≡◌, refl, some, List, [], ◌∷◌, ◌++◌, arith, ok, pos}
use ttex_kernel.Timer.{plain_timers, plain_timers-IsTimerApi}
use ttex_kernel.ThreadMap.{hash_function, load}
use ttex_kernel.ThreadMap.Chain.{find}
use ttex_kernel.ThreadMap.Refine.{IsMap}
use ttex_kernel.ThreadMap.Info.{info_at}
use ttex_kernel.Driver.{Data, State}
use ttex_kernel.Driver.Switch.{IsTimed}
use ttex_kernel.Profiler.{ThreadInfo, Call, Counters, on_thread_begin}
use ttex_kernel.Profiler.Session.{run_calls}
use ttex_kernel.Profiler.Ended.{
  Visit, at_border, at_sync_region, at_parallel_end, rest_of_life, ended_timed,
}
use ttex_kernel.Examples.Demo.{two_entries, two-IsMap, driver}
use ttex_kernel.Examples.DeviceRuns.{codes, codes-IsIoctlApi}
use ttex_kernel.Examples.ToolRuns.{codes-AreApart, windows, windows-InRange}
use ttex_kernel.Examples.ProfilerRuns.{
  node, short, tables, memory, split_at, counters, borders-AreKnown,
}

abbrev visits : List Visit
visits =
    at_sync_region
    ∷ at_border (split_at (pos 0) 3000000000 3000000010)
    ∷ at_parallel_end
    ∷ at_border (split_at (pos 1) 3500000000 3500000020)
    ∷ []

ended_timed_example :
    (c' : Counters) × (info : ThreadInfo) × (calls calls' : List Call) × (d' : State plain_timers)
    × (t' : Data plain_timers) × (on_thread_begin (node short) counters (pos 3) (pos 8) 1000000000
        ≡ (c', some info, calls))
    × (rest_of_life tables memory info (pos 8) visits ≡ ok calls')
    × (run_calls codes plain_timers windows 0 driver (calls ++ calls') ≡ ok d')
    × IsMap d'.thread_map (two_entries ++ ((pos 8, 300) ∷ []))
    × (info_at d'.thread_map (pos 8) ≡ ok (some t'))
    × IsTimed t'
unfolding hash_function find load
ended_timed_example =
    ended_timed codes codes-IsIoctlApi codes-AreApart plain_timers plain_timers-IsTimerApi windows
      windows-InRange tables memory (node short) counters 3 (pos 8) 1000000000 visits driver
      two_entries 8 borders-AreKnown two-IsMap refl refl (omega arith) (omega arith) refl
