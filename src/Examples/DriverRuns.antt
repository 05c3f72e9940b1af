-- ===== src/Examples/DriverRuns.antt =====
-- The handlers at concrete inputs: thread 7 is off the processor while thread 57 runs.
use ttex_kernel.Common.{
  ℕ, ◌+◌, ◌≡◌, refl, ◌>>=◌, true, false, some, List, [], ◌∷◌, arith, ok, ℤ, pos,
}
use ttex_kernel.Timer.{plain_timers, plain_timers-IsTimerApi, Copied, sub64}
use ttex_kernel.ThreadMap.{get, hash_function, load, walk, modify}
use ttex_kernel.ThreadMap.Chain.{find}
use ttex_kernel.ThreadMap.Info.{info_at, write_info}
use ttex_kernel.ThreadMap.Write.{write_info-IsMap}
use ttex_kernel.Driver.{Driver, Data, State, UpdatedTimer}
use ttex_kernel.Driver.Ioctl.{del_timer, start_timer, stopped}
use ttex_kernel.Driver.Switch.{IsTimed, Stay, off_time}
use ttex_kernel.Driver.Isolation.{Switch, out, in', run_switches, InRange}
use ttex_kernel.Driver.Trace.{trace}
use ttex_kernel.Driver.Timing.{Queried, region_time}
use ttex_kernel.Driver.Restart.{deleted_stays, restarted_stays, unbudgeted_armed}
use ttex_kernel.Examples.Demo.{Timers, raw, fresh, two, two_entries, two-IsMap, driver, task, clock}

abbrev switches : List Switch
switches =
    out (task 7) (clock 20 2000)
    ∷ in' (task 57) (clock 21 2100)
    ∷ out (task 57) (clock 29 2900)
    ∷ in' (task 7) (clock 30 3000)
    ∷ []

abbrev stay : Stay
stay = record { from = clock 20 2000; to = clock 30 3000 }

abbrev id_of : ℕ → Copied ℤ
id_of n = record { content = pos n; failed = false }

abbrev new_budget : Copied UpdatedTimer
new_budget = record { content = record { id = pos 7; time_val = 250 }; failed = false }

fresh-IsTimed : IsTimed fresh
fresh-IsTimed = record { set = refl; running = refl }

switches-InRange : InRange switches
unfolding hash_function
switches-InRange = ((7, refl), ((7, refl), ((7, refl), ((7, refl), tt))))

seven : info_at two (pos 7) ≡ ok (some fresh)
unfolding info_at get walk load hash_function
seven = refl

region_time_example :
    (answer : ℕ) × Queried plain_timers driver
      (pos 7)
      (clock 10 1000)
      (clock 90 9000)
      switches
      answer
    × (answer + off_time (stay ∷ []) + 1000 ≡ 9000)
unfolding trace hash_function
region_time_example =
    region_time plain_timers plain_timers-IsTimerApi driver two_entries (pos 7) fresh
      (clock 10 1000) (clock 90 9000) switches (stay ∷ []) two-IsMap seven fresh-IsTimed
      switches-InRange refl (omega arith) (omega arith)

deleted_stays_example :
    (d' : State plain_timers) × (t' : Data plain_timers) × ((del_timer plain_timers driver (id_of 7)
        >>= λ d1. run_switches plain_timers d1 switches)
      ≡ ok d')
    × (info_at d'.thread_map (pos 7) ≡ ok (some t'))
    × (plain_timers.timer_pending t'.thread_timer ≡ false)
    × (t'.timer_set ≡ false)
unfolding hash_function
deleted_stays_example =
    deleted_stays plain_timers plain_timers-IsTimerApi driver two_entries (id_of 7) fresh switches
      two-IsMap seven switches-InRange

-- Thread 7 behind its DEL_TIMER.
abbrev gone : Driver Timers
gone = record driver { thread_map = write_info two 100 (stopped plain_timers) }

gone_seven :
    info_at (write_info two 100 (stopped plain_timers)) (pos 7)
    ≡ ok (some (stopped plain_timers fresh))
unfolding info_at get walk load hash_function write_info modify
gone_seven = refl

restarted_stays_example :
    (d' : State plain_timers) × ((start_timer plain_timers ok gone (task 7) (id_of 7) 400 raw 300
        >>= λ d1. run_switches plain_timers d1 switches)
      ≡ ok d')
    × (info_at d'.thread_map (pos 7) ≡ ok (some (stopped plain_timers fresh)))
unfolding write_info modify load
restarted_stays_example =
    restarted_stays plain_timers plain_timers-IsTimerApi ok gone (task 7) two_entries (id_of 7) 400
      300 raw (stopped plain_timers fresh) switches
      (write_info-IsMap two 100 (stopped plain_timers) two_entries two-IsMap) gone_seven refl
      (omega arith) (omega arith) refl switches-InRange

abbrev first_switches : List Switch
first_switches = out (task 8) (clock 20 2000) ∷ in' (task 8) (clock 30 3000) ∷ []

unbudgeted_armed_example :
    (d' : State plain_timers) × (t' : Data plain_timers) × ((start_timer plain_timers ok driver
          (task 8)
          (id_of 8)
          400
          raw
          300
        >>= λ d1. run_switches plain_timers d1 first_switches)
      ≡ ok d')
    × (info_at d'.thread_map (pos 8) ≡ ok (some t'))
    × (plain_timers.timer_pending t'.thread_timer ≡ true)
    × (sub64 (plain_timers.expires t'.thread_timer) 30 ≡ sub64 4000 20)
unfolding hash_function trace find load
unbudgeted_armed_example =
    unbudgeted_armed plain_timers plain_timers-IsTimerApi ok driver (task 8) two_entries (id_of 8)
      400 300 raw 8 first_switches stay two-IsMap refl refl (omega arith) (omega arith) refl
      ((8, refl), ((8, refl), tt)) refl (omega arith)
