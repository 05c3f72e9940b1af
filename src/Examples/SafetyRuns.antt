-- ===== src/Examples/SafetyRuns.antt =====
-- Histories of the whole module, and two threads that start together.
use ttex_kernel.Common.{◌≡◌, refl, ◌++◌, none, List, [], ◌∷◌, ok, ℤ, pos, false, arith}
use ttex_kernel.Timer.{plain_timers, Copied}
use ttex_kernel.ThreadMap.{get, hash_function, load}
use ttex_kernel.ThreadMap.Chain.{Entries, find}
use ttex_kernel.ThreadMap.Bounds.{new_map}
use ttex_kernel.ThreadMap.Refine.{IsMap}
use ttex_kernel.Driver.{State, Request}
use ttex_kernel.Driver.Isolation.{out}
use ttex_kernel.Driver.Safety.{KeepsMap}
use ttex_kernel.Driver.Runs.{
  Event, ioctl, switch, expiry, cleared, run_events, AreValid, run_events_safe,
}
use ttex_kernel.Driver.Race.{Starter, together, lost_start}
use ttex_kernel.Examples.Demo.{Timers, raw, two_entries, two-IsMap, driver, task, clock}

-- A `schedule()` that comes straight back.
pub ok-KeepsMap : KeepsMap plain_timers ok
ok-KeepsMap d es is = (d, es, refl, is)

abbrev id_of : ℤ → Copied ℤ
id_of k = record { content = k; failed = false }

abbrev start_eight : Request Timers
start_eight = Request.start_timer (id_of (pos 8)) 400 raw 300

abbrev history : List (Event Timers)
history =
    ioctl (task 8) (clock 1 1) start_eight
    ∷ switch (out (task 8) (clock 2 2))
    ∷ expiry 300
    ∷ ioctl (task 8) (clock 3 3) (Request.del_timer (id_of (pos 8)))
    ∷ []

history-AreValid : AreValid plain_timers ok cleared history
unfolding hash_function load new_map
history-AreValid = (
  ((8, refl), omega arith, omega arith, refl),
  λ d1 e1. ((8, refl), λ d2 e2. (tt, λ d3 e3. ((8, refl), λ d4 e4. tt))),
)

run_events_safe_example :
    (d' : State plain_timers) × (es : Entries) × (run_events plain_timers ok cleared history
      ≡ ok d')
    × IsMap d'.thread_map es
run_events_safe_example = run_events_safe plain_timers ok ok-KeepsMap history history-AreValid

abbrev starter : ℤ → Starter plain_timers
starter k = record { task = task 8; id = k; temp = 400; raw = raw; node = 300 }

lost_start_example :
    (d' : State plain_timers) × (together plain_timers ok driver
        (starter (pos 8))
        (record (starter (pos 9)) { node = 301 })
      ≡ ok d')
    × IsMap d'.thread_map ((two_entries ++ ((pos 9, 300) ∷ [])) ++ ((pos 9, 301) ∷ []))
    × (get d'.thread_map (pos 8) ≡ ok none)
unfolding hash_function load find
lost_start_example =
    lost_start plain_timers ok driver two_entries (starter (pos 8))
      (record (starter (pos 9)) { node = 301 }) 8 9 two-IsMap refl refl (ground arith) refl
      (omega arith) (omega arith) (omega arith) (omega arith) (omega arith) refl refl
