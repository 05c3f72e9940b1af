-- ===== src/Examples/ProfilerRuns.antt =====
-- The tool at concrete readings: a thread that begins, and two splits of one loop.
use ttex_kernel.Common.{ℕ, true, refl, false, List, [], ◌∷◌, Outcome, fault, ℤ, pos}
use ttex_kernel.ThreadMap.{Ptr, null}
use ttex_kernel.Timespec.{Timespec}
use ttex_kernel.Profiler.{
  TimeoutNode, LoopDetails, ThreadInfo, reading_of, Border, region_of, Counters,
}
use ttex_kernel.Profiler.Regions.{Running, AreKnown}

abbrev pub node : Timespec → TimeoutNode
node budget = record {
  parallel_region_id = pos 0;
  sub_region_id = pos 0;
  sections_id = pos 0;
  loop_id = pos 0;
  sub_timer_id = pos 0;
  wcet = budget;
  et = record { tv_sec = pos 0; tv_nsec = pos 0 };
  timer_set_flag = false;
}

abbrev pub short : Timespec
short = record { tv_sec = pos 0; tv_nsec = pos 20000000 }

abbrev pub tables : List (List LoopDetails)
tables =
    (record {
      loop_id = pos 0;
      splits_in_iter = pos 2;
      sub_loop_id = pos 0;
      expected_execution = node short ∷ node short ∷ [];
    }
      ∷ [])
    ∷ []

abbrev pub memory : Ptr → Outcome ℕ
memory p = fault

abbrev pub split_at : ℤ → ℕ → ℕ → Border
split_at i stop start = record {
  parallel_region_id = pos 0;
  sub_id = pos 0;
  loop_id = pos 4;
  split_id = i;
  stop = stop;
  start = start;
}

abbrev borders : List Border
borders = split_at (pos 0) 3000000000 3000000010 ∷ split_at (pos 1) 3500000000 3500000020 ∷ []

abbrev pub counters : Counters
counters = record { core = 7; next = 1 }

-- What both borders find in the tables.
abbrev pub found : TimeoutNode
found = record (node short) { loop_id = pos 4 }

pub borders-AreKnown : AreKnown tables memory null borders
unfolding region_of
borders-AreKnown = (refl, λ info e. (found, rw e refl), (refl, λ info e. (found, rw e refl), tt))

abbrev pub begun_thread : ThreadInfo
begun_thread = record {
  id = pos 1;
  kid = pos 0;
  fd = pos 3;
  counter = pos 0;
  region_data = null;
  thread_current_timeout =
      record (node short) { timer_set_flag = true; et = reading_of 1000000000 } ∷ [];
}

pub begun_thread-Running : Running begun_thread.thread_current_timeout
begun_thread-Running = record { done = []; last = _; shape = refl; set = refl }
