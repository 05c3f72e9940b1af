-- ===== src/Examples/OrderRuns.antt =====
-- Two orders of switches, and a thread whose timer has expired.
use ttex_kernel.Common.{
  ◌+◌, ◌%◌, ◌≡◌, refl, ◌>>=◌, true, false, some, List, [], ◌∷◌, arith, ok, ℤ, pos, eq_ℤ→eq,
}
use ttex_kernel.Timer.{u32_mod, u64_mod, plain_timers, plain_timers-IsTimerApi, Copied}
use ttex_kernel.ThreadMap.{Ptr, get, hash_function, load, walk, modify}
use ttex_kernel.ThreadMap.Info.{info_at, write_info}
use ttex_kernel.ThreadMap.Write.{write_info-IsMap}
use ttex_kernel.Driver.{Driver, Data, State, UpdatedTimer}
use ttex_kernel.Driver.Expiry.{timer_callback, trigger}
use ttex_kernel.Driver.Ioctl.{mod_timer_new}
use ttex_kernel.Driver.Switch.{IsTimed, Stay}
use ttex_kernel.Driver.Isolation.{Switch, out, in', run_switches, InRange}
use ttex_kernel.Driver.Trace.{trace}
use ttex_kernel.Driver.Running.{off_jiffies, budget_running}
use ttex_kernel.Driver.Interleave.{run_switches_interleave}
use ttex_kernel.Driver.Expired.{triggered_unarmed, budget_triggers}
use ttex_kernel.Examples.Demo.{Timers, fresh, two, two_entries, two-IsMap, driver, task, clock}

abbrev in_turn : List Switch
in_turn =
    out (task 7) (clock 20 2000)
    ∷ in' (task 7) (clock 30 3000)
    ∷ out (task 57) (clock 21 2100)
    ∷ in' (task 57) (clock 29 2900)
    ∷ []

abbrev mixed : List Switch
mixed =
    out (task 7) (clock 20 2000)
    ∷ out (task 57) (clock 21 2100)
    ∷ in' (task 57) (clock 29 2900)
    ∷ in' (task 7) (clock 30 3000)
    ∷ []

in_turn-InRange : InRange in_turn
unfolding hash_function
in_turn-InRange = ((7, refl), ((7, refl), ((7, refl), ((7, refl), tt))))

mixed-InRange : InRange mixed
unfolding hash_function
mixed-InRange = ((7, refl), ((7, refl), ((7, refl), ((7, refl), tt))))

same_traces : (k : ℤ) → trace k in_turn ≡ trace k mixed
unfolding trace
same_traces k = ground (arith, eq_ℤ→eq (pos 7) k, eq_ℤ→eq (pos 57) k)

run_switches_interleave_example :
    (d1 d2 : State plain_timers) × (run_switches plain_timers driver in_turn ≡ ok d1)
    × (run_switches plain_timers driver mixed ≡ ok d2)
    × ((k : ℤ) → info_at d1.thread_map k ≡ info_at d2.thread_map k)
run_switches_interleave_example =
    run_switches_interleave plain_timers driver two_entries in_turn mixed two-IsMap in_turn-InRange
      mixed-InRange same_traces

-- Thread 7 behind the expiry of its timer.
abbrev late : Driver Timers
late = record driver { thread_map = write_info two 100 trigger }

late_seven : info_at (write_info two 100 trigger) (pos 7) ≡ ok (some (trigger fresh))
unfolding info_at get walk load hash_function write_info modify
late_seven = refl

abbrev new_budget : Copied UpdatedTimer
new_budget = record { content = record { id = pos 7; time_val = 250 }; failed = false }

triggered_unarmed_example :
    (d' : State plain_timers) × (t' : Data plain_timers) × ((mod_timer_new plain_timers
          (λ s. run_switches plain_timers s in_turn)
          late
          new_budget
        >>= λ d1. run_switches plain_timers d1 mixed)
      ≡ ok d')
    × (info_at d'.thread_map (pos 7) ≡ ok (some t'))
    × (t'.thread_timer ≡ (4000, false))
    × (t'.mod_msecs ≡ 250)
triggered_unarmed_example =
    triggered_unarmed plain_timers late two_entries new_budget (trigger fresh) in_turn mixed
      (write_info-IsMap two 100 trigger two_entries two-IsMap) late_seven refl in_turn-InRange
      mixed-InRange

seven : info_at two (pos 7) ≡ ok (some fresh)
unfolding info_at get walk load hash_function
seven = refl

abbrev stay : Stay
stay = record { from = clock 20 2000; to = clock 30 3000 }

budget_triggers_example :
    (d1 d2 : State plain_timers) × (t1 t2 : Data plain_timers) × (fired : Ptr) × (mod_timer_new
        plain_timers
        (λ s. run_switches plain_timers s mixed)
        driver
        new_budget
      ≡ ok d1)
    × (info_at d1.thread_map (pos 7) ≡ ok (some t1))
    × (plain_timers.timer_pending t1.thread_timer ≡ true)
    × (get d1.thread_map (pos 7) ≡ ok (some fired))
    × (timer_callback d1 fired ≡ ok d2)
    × (info_at d2.thread_map (pos 7) ≡ ok (some t2))
    × (t2.timer_triggered ≡ true)
unfolding trace
budget_triggers_example =
    budget_triggers plain_timers plain_timers-IsTimerApi driver two_entries new_budget 7 fresh mixed
      stay two-IsMap refl (omega arith) seven (record { set = refl; running = refl }) (omega arith)
      mixed-InRange refl

fresh-IsTimed : IsTimed fresh
fresh-IsTimed = record { set = refl; running = refl }

-- Thread 7 makes way for thread 57 once more, ten jiffies later.
abbrev later : List Switch
later =
    out (task 7) (clock 40 4000)
    ∷ in' (task 57) (clock 40 4000)
    ∷ out (task 57) (clock 45 4500)
    ∷ in' (task 7) (clock 45 4500)
    ∷ []

later-InRange : InRange later
unfolding hash_function
later-InRange = ((7, refl), ((7, refl), ((7, refl), ((7, refl), tt))))

abbrev later_stay : Stay
later_stay = record { from = clock 40 4000; to = clock 45 4500 }

budget_running_example :
    (d' : State plain_timers) × (t' : Data plain_timers) × ((mod_timer_new plain_timers
          (λ s. run_switches plain_timers s in_turn)
          driver
          new_budget
        >>= λ d1. run_switches plain_timers d1 later)
      ≡ ok d')
    × (info_at d'.thread_map (pos 7) ≡ ok (some t'))
    × (plain_timers.timer_pending t'.thread_timer ≡ true)
    × (plain_timers.expires t'.thread_timer
        ≡ (30 + plain_timers.msecs_to_jiffies (250 % u32_mod) + off_jiffies (later_stay ∷ []))
          % u64_mod)
unfolding trace hash_function
budget_running_example =
    budget_running plain_timers plain_timers-IsTimerApi driver two_entries new_budget fresh in_turn
      later stay (later_stay ∷ []) two-IsMap seven fresh-IsTimed (omega arith) in_turn-InRange
      later-InRange refl refl (omega arith)
