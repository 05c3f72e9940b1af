-- ===== src/Examples/MachineRuns.antt =====
-- Histories of threads in the code and in the machine.
use ttex_kernel.Common.{
  ℕ, ◌%◌, some, ℤ, ◌++◌, ◌+◌, ◌≤◌, length, ◌≡◌, refl, none, false, true, List, [], ◌∷◌, arith, ok,
  pos,
}
use ttex_kernel.Timer.{plain_timers, Copied}
use ttex_kernel.ThreadMap.{max_threads, Ptr, hash_function, load}
use ttex_kernel.ThreadMap.Bounds.{new_map}
use ttex_kernel.ThreadMap.Chain.{Entries}
use ttex_kernel.ThreadMap.Refine.{IsMap}
use ttex_kernel.ThreadMap.Abstract.{Stands, HasPlace}
use ttex_kernel.ThreadMap.Info.{info_at}
use ttex_kernel.Driver.Machine.Unmarked.{never_marked, switch_all-IsUnmarked}
use ttex_kernel.Driver.{Data, State, Request, Reply}
use ttex_kernel.Driver.Isolation.{Switch, out, in', run_switches, InRange}
use ttex_kernel.Driver.Runs.{cleared}
use ttex_kernel.Driver.Machine.{Act, command, switched, expired, steps, run_acts}
use ttex_kernel.Driver.Machine.Grown.{AreValidActs}
use ttex_kernel.Driver.Machine.Nodes.{starts, nodes_kept}
use ttex_kernel.Driver.Machine.Refines.{
  run_switches-same, run_acts-steps, switch_all, run_switches-Yields, cleared-Stands,
}
use ttex_kernel.Examples.Demo.{Timers, raw, task, clock}

abbrev away_once : List Switch
away_once = out (task 8) (clock 20 2000) ∷ in' (task 8) (clock 30 3000) ∷ []

away_once-InRange : InRange away_once
unfolding hash_function
away_once-InRange = ((8, refl), ((8, refl), tt))

abbrev copied : {A : Type 0} → A → Copied A
copied a = record { content = a; failed = false }

abbrev life : ℕ → List (Act Timers)
life n =
    command (task n) (clock 1 1) (Request.start_timer (copied (pos n)) 400 raw 300)
    ∷ command (task n) (clock 2 2)
        (Request.mod_timer_new (copied (record { id = pos n; time_val = 250 })))
    ∷ command (task n) (clock 31 3100)
        (Request.get_timer (copied (record { id = pos n; time_val_to_sub = 0; time_val = 0 })) true)
    ∷ switched (out (task n) (clock 40 4000))
    ∷ expired n
    ∷ command (task n) (clock 50 5000) (Request.del_timer (copied (pos n)))
    ∷ []

life-AreValidActs :
    (n : ℕ)
    → AreValidActs plain_timers (λ d. run_switches plain_timers d away_once) cleared (life n)
unfolding hash_function load new_map
life-AreValidActs n =
    let place : HasPlace (pos n) = (n % max_threads, refl) in
    (
      (place, omega arith, omega arith, refl),
      λ d1 r1 e1. (
        place,
        λ d2 r2 e2.
            (place, λ d3 r3 e3. (place, λ d4 r4 e4. (tt, λ d5 r5 e5. (place, λ d6 r6 e6. tt)))),
      ),
    )

run_acts-steps_example :
    let (threads', replies) =
      steps plain_timers (switch_all plain_timers away_once) (λ k. none) (life 8) in
    (d' : State plain_timers) × (es' : Entries) × (run_acts plain_timers
        (λ d. run_switches plain_timers d away_once)
        cleared
        (life 8)
      ≡ ok (d', replies))
    × Stands d'.thread_map es' threads'
run_acts-steps_example =
    run_acts-steps plain_timers (λ d. run_switches plain_timers d away_once)
      (switch_all plain_timers away_once)
      (run_switches-Yields plain_timers away_once away_once-InRange) cleared [] (λ k. none) (life 8)
      cleared-Stands (life-AreValidActs 8)

-- The thread's node is there behind its DEL_TIMER.
nodes_kept_example :
    (d' : State plain_timers) × (replies : List Reply) × (run_acts plain_timers
        (λ d. run_switches plain_timers d away_once)
        cleared
        (life 8)
      ≡ ok (d', replies))
    × IsMap d'.thread_map ([] ++ starts (life 8))
    × (length {0} {A = ℤ × Ptr} [] + length (starts (life 8)) ≤ length d'.thread_map.nodes)
nodes_kept_example =
    nodes_kept plain_timers (λ d. run_switches plain_timers d away_once)
      (switch_all plain_timers away_once)
      (run_switches-same plain_timers away_once away_once-InRange) cleared [] (λ k. none) (life 8)
      cleared-Stands (life-AreValidActs 8)

-- Thread 57 is not marked, though its timer expires.
never_marked_example :
    (d' : State plain_timers) × (replies : List Reply) × (run_acts plain_timers
        (λ d. run_switches plain_timers d away_once)
        cleared
        (life 57)
      ≡ ok (d', replies))
    × ((t : Data plain_timers)
        → info_at d'.thread_map (pos 57) ≡ ok (some t)
        → t.timer_triggered ≡ false)
never_marked_example =
    never_marked plain_timers (switch_all plain_timers away_once) 57 (omega arith)
      (λ threads. switch_all-IsUnmarked plain_timers (pos 57) away_once threads)
      (λ d. run_switches plain_timers d away_once)
      (run_switches-Yields plain_timers away_once away_once-InRange) cleared [] (λ k. none)
      (life 57) cleared-Stands (λ t. cc) (life-AreValidActs 57)
