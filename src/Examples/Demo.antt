-- ===== src/Examples/Demo.antt =====
-- Two threads, 7 and 57, whose ids share a bucket, with plain timers.
use ttex_kernel.Common.{
  ℕ, ◌≡◌, refl, Bool, true, false, List, [], ◌∷◌, arith, sym, ◌∙◌, ok, ok-injective, subst, ℤ, pos,
  replicate, set,
}
use ttex_kernel.Timer.{plain_timers, Clock, Task}
use ttex_kernel.ThreadMap.{
  ThreadMap, MapNode, max_threads, null, insert, create_node, link, last_node, load, modify,
  hash_function,
}
use ttex_kernel.ThreadMap.Refine.{IsMap}
use ttex_kernel.ThreadMap.Chain.{Entries}
use ttex_kernel.ThreadMap.Bounds.{new_map, new_map-IsMap}
use ttex_kernel.ThreadMap.Insert.{insert-Inserted}
use ttex_kernel.Driver.{Driver, Data}

-- A thread that START_TIMER has set up, over memory that holds 4000 as the timer's expiry.
abbrev pub raw : Data plain_timers
raw = record {
  thread_timer = (4000, true);
  pending_jiffies = 9;
  paused_time = 9;
  total_paused_time = 9;
  executed_time = 9;
  get_kern_time = 9;
  mod_msecs = 9;
  timer_set = false;
  mod_timer = true;
  timer_triggered = true;
  context_switch_start = true;
}

abbrev pub fresh : Data plain_timers
fresh = record {
  thread_timer = (4000, false);
  pending_jiffies = 0;
  paused_time = 0;
  total_paused_time = 0;
  executed_time = 9;
  get_kern_time = 9;
  mod_msecs = 0;
  timer_set = true;
  mod_timer = false;
  timer_triggered = false;
  context_switch_start = false;
}

abbrev pub Timers : Type 0
Timers = ℕ × Bool

abbrev pub node : ℤ → ℕ → MapNode Timers
node k next = record { key = k; info = fresh; next = next }

abbrev pub buckets : List ℕ
buckets = replicate max_threads null

abbrev pub one : ThreadMap Timers
one = record { array = set buckets 7 100; arr_size = 1; nodes = (100, node (pos 7) 0) ∷ [] }

abbrev pub two : ThreadMap Timers
two = record {
  array = set buckets 7 100;
  arr_size = 1;
  nodes = (200, node (pos 57) 0) ∷ (100, node (pos 7) 200) ∷ [];
}

abbrev pub two_entries : Entries
two_entries = (pos 7, 100) ∷ (pos 57, 200) ∷ []

first_insert : insert (new_map buckets) 100 (pos 7) fresh ≡ ok one
unfolding insert create_node link new_map hash_function
first_insert = refl

second_insert : insert one 200 (pos 57) fresh ≡ ok two
unfolding insert create_node link last_node load modify hash_function
second_insert = refl

pub one-IsMap : IsMap one ((pos 7, 100) ∷ [])
unfolding new_map load hash_function
one-IsMap =
    let (m, e, ins) =
      insert-Inserted (new_map buckets) [] (pos 7) fresh 100 7 new_map-IsMap (omega arith) refl
        refl in
    subst (λ m. IsMap m ((pos 7, 100) ∷ [])) (ok-injective (sym e ∙ first_insert)) ins.is

pub two-IsMap : IsMap two two_entries
unfolding load hash_function
two-IsMap =
    let (m, e, ins) =
      insert-Inserted one ((pos 7, 100) ∷ []) (pos 57) fresh 200 7 one-IsMap (omega arith) refl
        refl in
    subst (λ m. IsMap m two_entries) (ok-injective (sym e ∙ second_insert)) ins.is

abbrev pub driver : Driver Timers
driver = record { thread_map = two; value = pos 57; test_check = true; testing_id = pos 7 }

abbrev pub task : ℕ → Task
task n = record { pid = pos n; rt_priority = 10 }

abbrev pub clock : ℕ → ℕ → Clock
clock j k = record { jiffies = j; ktime = k }
