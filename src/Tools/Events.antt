-- ===== src/Tools/Events.antt =====
-- How the three tools register their callbacks, and what a thread's callbacks do where the OpenMP
-- runtime calls only some of them. The runtime (omp-tools.h) is no part of the repository: it is a
-- parameter.
use mathlib.Core.List.{append_assoc, append-nil}
use ttex_kernel.Common.{
  sym, refl, ◌∙◌, Bool-cases, inl, inr, ℕ, ◌≡◌, Bool, true, false, Option, none, List, [], ◌∷◌,
  ◌++◌, if◌then◌else◌, ℤ, pos, Outcome, ok, ◌>>=◌,
}
use ttex_kernel.Tools.{Command, Call, ThreadInfo, thread_begin, ompt_test, thread_end}

-- The events that the tools have callbacks for.
pub data Event : Type 0 where
  parallel_begin : Event
  parallel_end : Event
  thread_begins : Event
  thread_ends : Event
  work : Event
  sync_region : Event

-- Whether `ompt_set_callback` answers `ompt_set_never`, and whether the runtime calls the callback.
pub record Runtime : Type 0 where
  pub never : Event → Bool
  pub calls_back : Event → Bool

-- As documented, an event of the answer `ompt_set_never` is never dispatched.
pub record IsRuntime (runtime : Runtime) : Type 0 where
  pub never_called : (e : Event) → runtime.never e ≡ true → runtime.calls_back e ≡ false

-- The events of profiler_update.h and profiler.h; ttex_profiler.h has one more.
abbrev pub five_events : List Event
five_events = parallel_begin ∷ parallel_end ∷ thread_begins ∷ thread_ends ∷ work ∷ []

-- What a tool has asked for, and the messages that it has printed.
pub record Registration : Type 0 where
  pub asked : List Event
  pub could_not : List Event

-- The macro `register_callback`.
unfoldable pub register_callback : Runtime → Event → Registration → Registration
register_callback runtime e r = record {
  asked = r.asked ++ (e ∷ []);
  could_not = if runtime.never e then r.could_not ++ (e ∷ []) else r.could_not;
}

abbrev pub register_all : Runtime → List Event → Registration → Registration
register_all runtime [] r = r
register_all runtime (e ∷ es) r = register_all runtime es (register_callback runtime e r)

abbrev pub no_registration : Registration
no_registration = record { asked = []; could_not = [] }

-- The events among `es` that the runtime refuses, in their order.
abbrev pub refused : Runtime → List Event → List Event
refused runtime [] = []
refused runtime (e ∷ es) = if runtime.never e then e ∷ refused runtime es else refused runtime es

-- A message is printed for each refused event.
pub register_all-could_not :
    (runtime : Runtime) (es : List Event) (r : Registration)
    → (register_all runtime es r).could_not ≡ r.could_not ++ refused runtime es
unfolding register_callback
register_all-could_not runtime [] r = sym (append-nil r.could_not)
register_all-could_not runtime (e ∷ es) r =
    register_all-could_not runtime es (register_callback runtime e r)
    ∙ elim (Bool-cases (runtime.never e)) [
      | inl z ↦ rw z (append_assoc r.could_not (e ∷ []) (refused runtime es))
      | inr z ↦ rw z refl
    ]

-- `ompt_initialize` of profiler_update.h, with its return value.
unfoldable pub update_initialize : Runtime → Registration × ℤ
update_initialize runtime = (
  register_all runtime (parallel_begin ∷ parallel_end ∷ thread_begins ∷ thread_ends ∷ work ∷ [])
      no_registration,
  pos 1,
)

-- `ompt_initialize` of profiler.h.
unfoldable pub team_initialize : Runtime → Registration × ℤ
team_initialize runtime = (
  register_all runtime (parallel_begin ∷ parallel_end ∷ thread_begins ∷ thread_ends ∷ work ∷ [])
      no_registration,
  pos 1,
)

-- `ompt_initialize` of ttex_profiler.h: also the reading that it stores in `start_time`.
unfoldable pub traced_initialize : Runtime → (reading : ℕ) → Registration × ℕ × ℤ
traced_initialize runtime reading =
    (register_all runtime (five_events ++ (sync_region ∷ [])) no_registration, reading, pos 1)

-- The callbacks of a thread of profiler_update.h that the runtime makes.
unfoldable pub on_thread_begin :
    Runtime → (counter : ℕ) → (fd tid : ℤ) → ℕ × Option ThreadInfo × List (Call Command)
on_thread_begin runtime counter fd tid =
    if runtime.calls_back thread_begins then thread_begin counter fd tid else (counter, none, [])

unfoldable pub on_thread_end :
    Runtime → Option ThreadInfo → (tid : ℤ) → Outcome (List (Call Command))
on_thread_end runtime info tid =
    if runtime.calls_back thread_ends then thread_end info tid else ok []

-- The callbacks of profiler_update.h that only print or fetch the thread's pointer.
abbrev pub on_parallel_begin : List (Call Command)
on_parallel_begin = []

abbrev pub on_work : List (Call Command)
on_work = []

abbrev pub on_parallel_end : List (Call Command)
on_parallel_end = []

-- What a thread comes to between its begin and its end: the compiler calls `ompt_test` at a border
-- itself, the rest are events.
pub data Step : Type 0 where
  border : Step
  region_begins : Step
  works : Step
  region_ends : Step

abbrev pub heard : Runtime → Event → List (Call Command) → List (Call Command)
heard runtime e calls = if runtime.calls_back e then calls else []

abbrev pub on_step : Runtime → Option ThreadInfo → (tid : ℤ) → Step → Outcome (List (Call Command))
on_step runtime info tid border = ompt_test info tid
on_step runtime info tid region_begins = ok (heard runtime parallel_begin on_parallel_begin)
on_step runtime info tid works = ok (heard runtime work on_work)
on_step runtime info tid region_ends = ok (heard runtime parallel_end on_parallel_end)

unfoldable pub on_steps :
    Runtime → Option ThreadInfo → (tid : ℤ) → List Step → Outcome (List (Call Command))
on_steps runtime info tid [] = ok []
on_steps runtime info tid (s ∷ steps) = on_step runtime info tid s >>= λ calls.
    on_steps runtime info tid steps >>= λ rest. ok (calls ++ rest)

-- A thread from its begin to its end.
unfoldable pub session :
    Runtime → (counter : ℕ) → (fd tid : ℤ) → List Step → Outcome (List (Call Command))
session runtime counter fd tid steps =
    let (counter', info, begin) = on_thread_begin runtime counter fd tid in
    on_steps runtime info tid steps >>= λ middle.
    on_thread_end runtime info tid >>= λ end. ok (begin ++ (middle ++ end))
