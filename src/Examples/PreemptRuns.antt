-- ===== src/Examples/PreemptRuns.antt =====
-- Commands of thread 7 that are preempted between two of their statements.
use ttex_kernel.Common.{
  ℕ, ◌≡◌, refl, ◌+◌, ◌-◌, false, fault, some, List, [], ◌∷◌, arith, ok, pos, ℤ, ◌>>=◌, true,
}
use ttex_kernel.Timer.{plain_timers, plain_timers-IsTimerApi, sub64, add64, Copied}
use ttex_kernel.ThreadMap.{get, hash_function, load, walk, modify, ThreadData}
use ttex_kernel.ThreadMap.Info.{info_at, write_info}
use ttex_kernel.ThreadMap.Write.{write_info-IsMap}
use ttex_kernel.Driver.{Driver, Data, State, UpdatedTimer}
use ttex_kernel.Driver.Ioctl.{mod_timer_new}
use ttex_kernel.Driver.Switch.{IsTimed, Stay, off_time}
use ttex_kernel.Driver.Isolation.{Switch, out, in', run_switches, InRange}
use ttex_kernel.Driver.Trace.{trace}
use ttex_kernel.Driver.Preempted.Region.{PreemptedQuery, region_preempted}
use ttex_kernel.Driver.Preempted.Budget.{mod_timer_new_preempted, preempted_budget}
use ttex_kernel.Driver.Preempted.Deletion.{del_timer_preempted, deleted_requeued}
use ttex_kernel.Driver.Running.{off_jiffies}
use ttex_kernel.Examples.Demo.{Timers, fresh, two, two_entries, two-IsMap, driver, task, clock}

-- Thread 7 makes way for thread 57 between two readings.
abbrev gap : ℕ → ℕ → List Switch
gap a b =
    out (task 7) (clock 20 a)
    ∷ in' (task 57) (clock 20 a)
    ∷ out (task 57) (clock 30 b)
    ∷ in' (task 7) (clock 30 b)
    ∷ []

abbrev gap_stay : ℕ → ℕ → Stay
gap_stay a b = record { from = clock 20 a; to = clock 30 b }

gap-InRange : (a b : ℕ) → InRange (gap a b)
unfolding hash_function
gap-InRange a b = ((7, refl), ((7, refl), ((7, refl), ((7, refl), tt))))

seven : info_at two (pos 7) ≡ ok (some fresh)
unfolding info_at get walk load hash_function
seven = refl

fresh-IsTimed : IsTimed fresh
fresh-IsTimed = record { set = refl; running = refl }

-- Off for 500 before the first reading, for 1000 between the readings and for 200 after the last.
region_preempted_example :
    (answer : ℕ) × PreemptedQuery plain_timers driver
      (pos 7)
      (clock 10 1000)
      (clock 90 9000)
      (gap 300 800)
      (gap 2000 3000)
      (gap 9100 9300)
      answer
    × (answer
        ≡ sub64 (9000 - 1000) (
            off_time (gap_stay 300 800 ∷ [])
            + off_time (gap_stay 2000 3000 ∷ [])
            + off_time (gap_stay 9100 9300 ∷ [])))
unfolding trace hash_function
region_preempted_example =
    region_preempted plain_timers plain_timers-IsTimerApi driver two_entries (pos 7) fresh 0 9999
      (clock 10 1000) (clock 90 9000) (gap 300 800) (gap 2000 3000) (gap 9100 9300)
      (gap_stay 300 800 ∷ []) (gap_stay 2000 3000 ∷ []) (gap_stay 9100 9300 ∷ []) two-IsMap seven
      fresh-IsTimed (gap-InRange 300 800) (gap-InRange 2000 3000) (gap-InRange 9100 9300) refl refl
      refl (omega arith) (omega arith) (omega arith) (omega arith)

abbrev new_budget : Copied UpdatedTimer
new_budget = record { content = record { id = pos 7; time_val = 250 }; failed = false }

preempted_budget_example :
    (d' : State plain_timers) × (mod_timer_new_preempted plain_timers
        (λ s. run_switches plain_timers s (gap 2000 3000))
        (λ s. fault)
        driver
        new_budget
      ≡ ok d')
    × (mod_timer_new plain_timers
          (λ s. run_switches plain_timers s (gap 2000 3000))
          driver
          new_budget
        ≡ ok d')
unfolding trace hash_function
preempted_budget_example =
    preempted_budget plain_timers plain_timers-IsTimerApi (λ s. fault) driver two_entries new_budget
      fresh (gap 2000 3000) (gap_stay 2000 3000) [] two-IsMap seven fresh-IsTimed (omega arith)
      (gap-InRange 2000 3000) refl

abbrev armed : ThreadData Timers → ThreadData Timers
armed t = record t { thread_timer = (4000, true) }

abbrev budgeted : Driver Timers
budgeted = record driver { thread_map = write_info two 100 armed }

budgeted_seven : info_at (write_info two 100 armed) (pos 7) ≡ ok (some (armed fresh))
unfolding info_at get walk load hash_function write_info modify
budgeted_seven = refl

abbrev id_seven : Copied ℤ
id_seven = record { content = pos 7; failed = false }

-- The timer of thread 7 is queued for jiffy 4000, and the thread is off for ten jiffies.
deleted_requeued_example :
    (d' : State plain_timers) × (t' : Data plain_timers) × ((del_timer_preempted plain_timers
          (λ s. run_switches plain_timers s (gap 2000 3000))
          budgeted
          id_seven
        >>= λ d1. run_switches plain_timers d1 (gap 4000 5000))
      ≡ ok d')
    × (info_at d'.thread_map (pos 7) ≡ ok (some t'))
    × (t'.timer_set ≡ false)
    × (plain_timers.timer_pending t'.thread_timer ≡ true)
    × (plain_timers.expires t'.thread_timer ≡ add64 4000 (off_jiffies (gap_stay 2000 3000 ∷ [])))
unfolding trace hash_function
deleted_requeued_example =
    deleted_requeued plain_timers plain_timers-IsTimerApi budgeted two_entries id_seven
      (armed fresh) (gap 2000 3000) (gap 4000 5000) (gap_stay 2000 3000) []
      (write_info-IsMap two 100 armed two_entries two-IsMap) budgeted_seven
      (record { set = refl; running = refl }) refl (omega arith) (gap-InRange 2000 3000)
      (gap-InRange 4000 5000) refl (omega arith)
