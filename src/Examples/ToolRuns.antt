-- ===== src/Examples/ToolRuns.antt =====
-- Threads under the tools: a whole life in the later module, and two teams in the earlier one.
use ttex_kernel.Common.{
  Bool, not, ℕ, ◌≡◌, refl, ◌⊎◌, ◌++◌, arith, true, false, some, List, [], ◌∷◌, ok, fault, pos, ◌-ℤ◌,
}
use ttex_kernel.Timer.{plain_timers, plain_timers-IsTimerApi}
use ttex_kernel.ThreadMap.{hash_function, load}
use ttex_kernel.ThreadMap.Chain.{find}
use ttex_kernel.ThreadMap.Refine.{IsMap}
use ttex_kernel.ThreadMap.Info.{info_at}
use ttex_kernel.Driver.{State, Data}
use ttex_kernel.Driver.Isolation.{out, in', InRange}
use ttex_kernel.Legacy
use ttex_kernel.Tools.{Call, Command}
use ttex_kernel.Tools.Session.{AreApart, Window, life, run_calls}
use ttex_kernel.Tools.Life.{thread_life}
use ttex_kernel.Tools.Events.{
  Event, thread_ends, Runtime, IsRuntime, update_initialize, refused, five_events, session, border,
  region_begins, works, region_ends,
}
use ttex_kernel.Tools.Refused.{refused_end}
use ttex_kernel.Tools.Team.{Member, begins, all_fit, run_team, AllSet, team_begins}
use ttex_kernel.Examples.Demo.{Timers, raw, two_entries, two-IsMap, driver, task, clock}
use ttex_kernel.Examples.DeviceRuns.{codes}
use ttex_kernel.Examples.LegacyRuns.{full}

pub codes-AreApart : AreApart codes
codes-AreApart = record {
  start_del = omega arith;
  mod_del = omega arith;
  start_new = omega arith;
  mod_new = omega arith;
  del_new = omega arith;
}

-- Thread 8 yields at each of its calls, and thread 57 is switched behind it.
abbrev pub windows : ℕ → Window Timers
windows i = record {
  task = task 8;
  now = clock 10 1000;
  temp = 400;
  raw = raw;
  node = 300;
  during = out (task 8) (clock 20 2000) ∷ in' (task 8) (clock 30 3000) ∷ [];
  after = in' (task 57) (clock 31 3100) ∷ [];
}

pub windows-InRange : (i : ℕ) → InRange (windows i).during × InRange (windows i).after
unfolding hash_function
windows-InRange i = (((8, refl), ((8, refl), tt)), ((7, refl), tt))

thread_life_example :
    (calls : List (Call Command)) × (d' : State plain_timers) × (t' : Data plain_timers) × (life 3
        (pos 4)
        (pos 8)
        2
      ≡ ok calls)
    × (run_calls codes plain_timers windows 0 driver calls ≡ ok d')
    × IsMap d'.thread_map (two_entries ++ ((pos 8, 300) ∷ []))
    × (info_at d'.thread_map (pos 8) ≡ ok (some t'))
    × (t'.timer_set ≡ false)
    × (plain_timers.timer_pending t'.thread_timer ≡ false)
unfolding hash_function find load
thread_life_example =
    thread_life codes codes-AreApart plain_timers plain_timers-IsTimerApi windows windows-InRange
      driver two_entries 3 4 (pos 8) 2 8 two-IsMap refl refl (omega arith) (omega arith) refl

-- A runtime that refuses the callback for the end of a thread, and makes the others.
abbrev is_end : Event → Bool
is_end thread_ends = true
is_end _ = false

abbrev endless : Runtime
endless = record { never = is_end; calls_back = λ e. not (is_end e) }

endless-IsRuntime : IsRuntime endless
endless-IsRuntime = record { never_called = λ e h. rw h }

refused_end_example :
    ((update_initialize endless).1 ≡ pos 1)
    × ((update_initialize endless).0.could_not ≡ refused endless five_events)
    × (calls : List (Call Command)) × (d' : State plain_timers) × (t' : Data plain_timers)
    × (session endless 3
          (pos 4)
          (pos 8)
          (region_begins ∷ border ∷ works ∷ border ∷ region_ends ∷ [])
        ≡ ok calls)
    × (run_calls codes plain_timers windows 0 driver calls ≡ ok d')
    × (info_at d'.thread_map (pos 8) ≡ ok (some t'))
    × (t'.timer_set ≡ true)
unfolding hash_function find load
refused_end_example =
    refused_end codes codes-AreApart plain_timers plain_timers-IsTimerApi windows windows-InRange
      endless endless-IsRuntime driver two_entries 3 4 (pos 8)
      (region_begins ∷ border ∷ works ∷ border ∷ region_ends ∷ []) 8 refl refl two-IsMap refl refl
      (omega arith) (omega arith) refl

abbrev main_thread : Member
main_thread = record { main = true; fd = 3; tid = pos 1000 }

abbrev worker : Member
worker = record { main = false; fd = 4; tid = pos 1002 }

-- The module as just loaded: no PARENT_ID yet.
abbrev loaded : Legacy.State plain_timers
loaded = record full { parent_id = pos 0 }

team_begins_example :
    ((all_fit (pos 0) (main_thread ∷ worker ∷ []) ≡ true)
      × (d' : Legacy.State plain_timers) × (run_team plain_timers loaded
            (begins 0 (main_thread ∷ worker ∷ []))
          ≡ ok d')
      × AllSet plain_timers d'.slots (pos 0) (main_thread ∷ worker ∷ []))
    ⊎ ((all_fit (pos 0) (main_thread ∷ worker ∷ []) ≡ false)
        × (run_team plain_timers loaded (begins 0 (main_thread ∷ worker ∷ [])) ≡ fault))
team_begins_example = team_begins plain_timers loaded 0 (main_thread ∷ worker ∷ []) refl

main_first : all_fit (pos 0) (main_thread ∷ worker ∷ []) ≡ true
unfolding all_fit ◌-ℤ◌
main_first = refl

-- A worker that begins before the main thread has sent PARENT_ID.
worker_first : all_fit (pos 0) (worker ∷ main_thread ∷ []) ≡ false
unfolding all_fit ◌-ℤ◌
worker_first = refl
