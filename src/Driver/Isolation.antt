-- ===== src/Driver/Isolation.antt =====
-- Context switches of many threads, in any order, and the switches of one of them.
use ttex_kernel.Common.{
  ℕ, ◌≡◌, refl, inl, inr, ◌&&◌, true, none, some, List, [], ◌∷◌, arith, ◌==◌, ◌∙◌, ◌>>=◌, Outcome,
  ok, if◌then◌else◌, ap, ℤ, pos, eq_ℤ, eq_ℤ→eq, eq→eq_ℤ, Bool-cases, Option-cases,
}
use ttex_kernel.Timer.{TimerApi, Clock, Task}
use ttex_kernel.ThreadMap.{ThreadMap, get, hash_function}
use ttex_kernel.ThreadMap.Chain.{Entries, find}
use ttex_kernel.ThreadMap.Refine.{IsMap, get-find}
use ttex_kernel.ThreadMap.Bounds.{arr_size_of_get}
use ttex_kernel.ThreadMap.Info.{info_at, Updated}
use ttex_kernel.ThreadMap.Write.{
  update_found-Updated, update_found-none, info_at-none, info_at-some,
}
use ttex_kernel.Driver.{Data, State, pause, resume, on_switch, pre_handler, post_handler}

-- A run of one of the two handlers.
pub data Switch : Type 0 where
  out : Task → Clock → Switch
  in' : Task → Clock → Switch

abbrev pub task_of : Switch → Task
task_of (out task now) = task
task_of (in' task now) = task

module _ (api : TimerApi) where
  unfoldable pub run_switch : State api → Switch → Outcome (State api)
  run_switch d (out task now) = pre_handler api d task now
  run_switch d (in' task now) = post_handler api d task now

  unfoldable pub run_switches : State api → List Switch → Outcome (State api)
  run_switches d [] = ok d
  run_switches d (s ∷ ss) = run_switch d s >>= λ d'. run_switches d' ss

  -- What a switch does to the data of the thread that it is about.
  abbrev pub effect : Switch → Data api → Data api
  effect (out task now) = pause api now
  effect (in' task now) = resume api now

  -- The switches of the real-time thread `k`, in order, on its data.
  unfoldable pub replay : ℤ → List Switch → Data api → Data api
  replay k [] t = t
  replay k (s ∷ ss) t =
      replay k ss
        (if (task_of s).rt_priority == 10 && eq_ℤ (task_of s).pid k then effect s t else t)

-- Each thread id has a place in the array.
abbrev pub InRange : List Switch → Type 0
InRange [] = Unit
InRange (s ∷ ss) = ((i : ℕ) × (hash_function (task_of s).pid ≡ pos i)) × InRange ss

module _ (api : TimerApi) where
  -- What one run of a handler keeps and changes.
  record Switched (d : State api) (es : Entries) (task : Task) (f : Data api → Data api)
      (d' : State api) : Type 0 where
    is : IsMap d'.thread_map es
    same :
        (k : ℤ) (t : Data api)
        → info_at d.thread_map k ≡ ok (some t)
        → info_at d'.thread_map k
          ≡ ok (some (if task.rt_priority == 10 && eq_ℤ task.pid k then f t else t))

  untouched :
      (d : State api) (task : Task) (f : Data api → Data api) (k : ℤ) (t : Data api)
      → info_at d.thread_map k ≡ ok (some t)
      → info_at d.thread_map task.pid ≡ ok none
      → info_at d.thread_map k
        ≡ ok (some (if task.rt_priority == 10 && eq_ℤ task.pid k then f t else t))
  untouched d task f k t gk absent = ground (arith, eq_ℤ→eq task.pid k)

  touched :
      (d : State api) (task : Task) (f : Data api → Data api) (m' : ThreadMap api.TimerList)
      (t0 : Data api) (k : ℤ) (t : Data api)
      → (task.rt_priority == 10) ≡ true
      → info_at d.thread_map task.pid ≡ ok (some t0)
      → Updated d.thread_map task.pid (f t0) m'
      → info_at d.thread_map k ≡ ok (some t)
      → info_at m' k ≡ ok (some (if task.rt_priority == 10 && eq_ℤ task.pid k then f t else t))
  touched d task f m' t0 k t prio there up gk = elim (Bool-cases (eq_ℤ task.pid k)) [
    | inl e ↦
        let ek : task.pid ≡ k = eq_ℤ→eq task.pid k e in
        let et : t0 ≡ t = ground (arith, there, gk, ek) in rw (prio, e, ← ek, ← et) up.there
    | inr e ↦ rw (prio, e) (up.others k (λ z. ground (arith, eq→eq_ℤ task.pid k)) ∙ gk)
  ]

  on_switch-Switched :
      (d : State api) (es : Entries) (task : Task) (f : Data api → Data api) (i : ℕ)
      → IsMap d.thread_map es
      → hash_function task.pid ≡ pos i
      → (d' : State api) × (on_switch api f d task ≡ ok d') × Switched d es task f d'
  unfolding on_switch
  on_switch-Switched d es task f i is h = elim (Bool-cases (task.rt_priority == 10)) [
    | inr e ↦ (d, rw e, record { is = is; same = λ k t g. rw e g })
    | inl e ↦ rw e (elim (Option-cases (find task.pid es)) [
      | inl absent ↦
          let g : get d.thread_map task.pid ≡ ok none =
            get-find d.thread_map es task.pid i is h ∙ ap ok absent in
          (
            d,
            rw (update_found-none d.thread_map task.pid f g) (ground arith),
            record {
              is = is;
              same = λ k t gk. untouched d task f k t gk (info_at-none d.thread_map task.pid g);
            },
          )
      | inr (p, found) ↦
          let g : get d.thread_map task.pid ≡ ok (some p) =
            get-find d.thread_map es task.pid i is h ∙ ap ok found in
          let (t0, there) = info_at-some d.thread_map task.pid p g in
          let (m', u, up) = update_found-Updated d.thread_map task.pid f t0 there in
          (
            record d { thread_map = m' },
            rw (arr_size_of_get d.thread_map es task.pid p is g, u),
            record {
              is = up.keeps es is;
              same = λ k t gk. touched d task f m' t0 k t e there up gk;
            },
          )
    ])
  ]

  run_switch-Switched :
      (d : State api) (es : Entries) (s : Switch) (i : ℕ)
      → IsMap d.thread_map es
      → hash_function (task_of s).pid ≡ pos i
      → (d' : State api) × (run_switch api d s ≡ ok d')
        × Switched d es (task_of s) (effect api s) d'
  unfolding run_switch pre_handler post_handler
  run_switch-Switched d es (out task now) i is h =
      on_switch-Switched d es task (pause api now) i is h
  run_switch-Switched d es (in' task now) i is h =
      on_switch-Switched d es task (resume api now) i is h

  pub run_switches-Switched :
      (d : State api) (es : Entries) (ss : List Switch)
      → IsMap d.thread_map es
      → InRange ss
      → (d' : State api) × (run_switches api d ss ≡ ok d')
        × IsMap d'.thread_map es
        × ((k : ℤ) (t : Data api)
            → info_at d.thread_map k ≡ ok (some t)
            → info_at d'.thread_map k ≡ ok (some (replay api k ss t)))
  unfolding run_switches replay
  run_switches-Switched d es [] is r = (d, refl, is, λ k t g. g)
  run_switches-Switched d es (s ∷ ss) is ((i, h), r) =
      let (d1, e1, sw) = run_switch-Switched d es s i is h in
      let (d2, e2, is2, same) = run_switches-Switched d1 es ss sw.is r in
      (d2, rw e1 e2, is2, λ k t g. same k _ (sw.same k t g))

  -- A list of switches whose thread ids have a place in the array runs to its end on a map that
  -- stands for entries, and leaves a map for the same entries, in which the data of a thread is
  -- what the handlers make of it by the thread's own switches in their order.
  pub run_switches-replay :
      (d : State api) (es : Entries) (ss : List Switch) (k : ℤ) (t : Data api)
      → IsMap d.thread_map es
      → InRange ss
      → info_at d.thread_map k ≡ ok (some t)
      → (d' : State api) × (run_switches api d ss ≡ ok d')
        × IsMap d'.thread_map es
        × (info_at d'.thread_map k ≡ ok (some (replay api k ss t)))
  run_switches-replay d es ss k t is r g =
      let (d', e, is', same) = run_switches-Switched d es ss is r in (d', e, is', same k t g)

module _ (api : TimerApi) where
  pub run_switch-IsMap :
      (d : State api) (es : Entries) (s : Switch) (i : ℕ)
      → IsMap d.thread_map es
      → hash_function (task_of s).pid ≡ pos i
      → (d' : State api) × (run_switch api d s ≡ ok d') × IsMap d'.thread_map es
  run_switch-IsMap d es s i is h =
      let (d', e, sw) = run_switch-Switched api d es s i is h in (d', e, sw.is)
