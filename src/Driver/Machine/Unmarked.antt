-- ===== src/Driver/Machine/Unmarked.antt =====
-- Threads that no history marks as expired.
use ttex_kernel.Common.{
  ◌%◌, sym, ok-injective, ℕ, ◌≤◌, ◌≡◌, refl, ◌≢◌, inl, inr, false, some, List, [], ◌∷◌, arith, ◌==◌,
  ◌∙◌, ltb, ℤ, pos, eq_ℤ→eq, Outcome, ok, Bool-cases, Option-cases,
}
use ttex_kernel.Timer.{TimerApi}
use ttex_kernel.ThreadMap.{ThreadData, max_threads, hash_function}
use ttex_kernel.ThreadMap.Chain.{Entries}
use ttex_kernel.ThreadMap.Abstract.{Threads, update, add, Stands}
use ttex_kernel.ThreadMap.Info.{info_at}
use ttex_kernel.Driver.{Data, State, Request, pause, resume}
use ttex_kernel.Driver.Ioctl.{started, flagged, stopped, budget, measure}
use ttex_kernel.Driver.Expiry.{trigger}
use ttex_kernel.Driver.Isolation.{Switch, out, in', task_of, effect}
use ttex_kernel.Driver.Machine.{Act, command, switched, expired, budgeted, step, steps, run_acts}
use ttex_kernel.Driver.Machine.Grown.{AreValidActs}
use ttex_kernel.Driver.Machine.Refines.{switch_all, Yields, run_acts-steps}

module _ {T : Type 0} where
  -- The thread, if it is there, is not marked.
  abbrev pub IsUnmarked : ℤ → Threads T → Type 0
  IsUnmarked k threads = (t : ThreadData T) → threads k ≡ some t → t.timer_triggered ≡ false

  -- A write that marks no thread.
  abbrev Keeps : (ThreadData T → ThreadData T) → Type 0
  Keeps f = (t : ThreadData T) → t.timer_triggered ≡ false → (f t).timer_triggered ≡ false

  update-IsUnmarked :
      (f : ThreadData T → ThreadData T) (j k : ℤ) (threads : Threads T)
      → Keeps f
      → IsUnmarked k threads
      → IsUnmarked k (update f j threads)
  update-IsUnmarked f j k threads keep h t e = elim (Option-cases (threads k)) [
    | inl absent ↦ absurd (ground (arith, absent, e))
    | inr (t0, here) ↦ ground (arith, here, e, h t0 here, keep t0 (h t0 here))
  ]

  update-other :
      (f : ThreadData T → ThreadData T) (j k : ℤ) (threads : Threads T)
      → k ≢ j
      → IsUnmarked k threads
      → IsUnmarked k (update f j threads)
  update-other f j k threads ne h t e = h t (ground (arith, e, eq_ℤ→eq k j))

  add-IsUnmarked :
      (j k : ℤ) (v : ThreadData T) (threads : Threads T)
      → v.timer_triggered ≡ false
      → IsUnmarked k threads
      → IsUnmarked k (add j v threads)
  add-IsUnmarked j k v threads unset h t e = elim (Option-cases (threads k)) [
    | inl absent ↦ ground (arith, absent, e)
    | inr (t0, here) ↦ ground (arith, here, e, h t0 here)
  ]

module _ (api : TimerApi) where
  effect-Keeps : (s : Switch) → Keeps (effect api s)
  unfolding pause resume
  effect-Keeps (out task now) t h = ground arith
  effect-Keeps (in' task now) t h = ground arith

  measure-Keeps : (now : _) (sub : ℕ) → Keeps (measure api now sub)
  unfolding measure
  measure-Keeps now sub t h = ground arith

  pub switch_all-IsUnmarked :
      (k : ℤ) (ss : List Switch) (threads : Threads api.TimerList)
      → IsUnmarked k threads
      → IsUnmarked k (switch_all api ss threads)
  switch_all-IsUnmarked k [] threads h = h
  switch_all-IsUnmarked k (s ∷ ss) threads h = elim (Bool-cases ((task_of s).rt_priority == 10)) [
    | inl e ↦ rw e (
        switch_all-IsUnmarked k ss (update (effect api s) (task_of s).pid threads)
          (update-IsUnmarked (effect api s) (task_of s).pid k threads (effect-Keeps s) h))
    | inr e ↦ rw e (switch_all-IsUnmarked k ss threads h)
  ]

  started_unmarked : (raw : Data api) → (started api raw).timer_triggered ≡ false
  unfolding started
  started_unmarked raw = refl

module _ (api : TimerApi) (yielded : Threads api.TimerList → Threads api.TimerList) (id : ℕ)
    (large : max_threads ≤ id)
    (keeps : (threads : Threads api.TimerList)
      → IsUnmarked (pos id) threads
      → IsUnmarked (pos id) (yielded threads)) where
  budgeted-IsUnmarked :
      (req : _) (threads : Threads api.TimerList)
      → IsUnmarked (pos id) threads
      → IsUnmarked (pos id) (budgeted api yielded req threads)
  budgeted-IsUnmarked req threads h =
      let stored = update (budget api req.content.time_val) req.content.id threads in
      let h' : IsUnmarked (pos id) stored =
        update-IsUnmarked (budget api req.content.time_val) req.content.id (pos id) threads
          (λ t unset. unset) h in
      elim (Option-cases (threads req.content.id)) [
        | inl absent ↦ rw (budgeted, absent) h
        | inr (t, here) ↦ elim (Bool-cases (req.content.time_val == 0)) [
          | inl z ↦ rw (budgeted, here, z) h'
          | inr z ↦ rw (budgeted, here, z) (keeps stored h')
        ]
      ]

  step-IsUnmarked :
      (a : Act api.TimerList) (threads : Threads api.TimerList)
      → IsUnmarked (pos id) threads
      → IsUnmarked (pos id) (step api yielded threads a).0
  step-IsUnmarked (command task now (Request.start_timer new temp raw node)) threads h =
      add-IsUnmarked new.content (pos id) (started api raw) threads (started_unmarked api raw) h
  step-IsUnmarked (command task now (Request.mod_timer old)) threads h =
      update-IsUnmarked (flagged api) old.content (pos id) threads (λ t unset. unset) h
  step-IsUnmarked (command task now (Request.del_timer old)) threads h =
      update-IsUnmarked (stopped api) old.content (pos id) threads (λ t unset. unset) h
  step-IsUnmarked (command task now (Request.mod_timer_new req)) threads h =
      budgeted-IsUnmarked req threads h
  step-IsUnmarked (command task now (Request.get_timer req sent)) threads h =
      update-IsUnmarked (measure api now req.content.time_val_to_sub) req.content.id (pos id)
        threads (measure-Keeps api now req.content.time_val_to_sub) h
  step-IsUnmarked (command task now Request.default) threads h = h
  step-IsUnmarked (switched s) threads h = elim (Bool-cases ((task_of s).rt_priority == 10)) [
    | inl e ↦
        rw e
          (update-IsUnmarked (effect api s) (task_of s).pid (pos id) threads (effect-Keeps api s) h)
    | inr e ↦ rw e h
  ]
  step-IsUnmarked (expired j) threads h = elim (Bool-cases (ltb j max_threads)) [
    | inl e ↦ rw e (update-other trigger (pos j) (pos id) threads (λ z. ground (arith, z)) h)
    | inr e ↦ rw e h
  ]

  steps-IsUnmarked :
      (acts : List (Act api.TimerList)) (threads : Threads api.TimerList)
      → IsUnmarked (pos id) threads
      → IsUnmarked (pos id) (steps api yielded threads acts).0
  steps-IsUnmarked [] threads h = h
  steps-IsUnmarked (a ∷ acts) threads h =
      steps-IsUnmarked acts (step api yielded threads a).0 (step-IsUnmarked a threads h)

  -- For an id of 50 or more: from a map that stands for entries and has the data of a partial
  -- function from ids to data at every id with a place in the array, the id's (if any) with
  -- `timer_triggered` 0, a history of commands, switches and expiries, each valid in the state that
  -- it finds (ids have a place in the array, `kmalloc` gives unused memory), where `schedule()`
  -- does what the machine has for it and does not set the `timer_triggered` of the id: the code
  -- runs to its end, and then the `timer_triggered` of the id's data (if any) is 0, whichever
  -- timers expired.
  pub never_marked :
      (schedule : State api → Outcome (State api))
      → Yields api schedule yielded
      → (d : State api) (es : Entries) (threads : Threads api.TimerList)
        (acts : List (Act api.TimerList))
      → Stands d.thread_map es threads
      → IsUnmarked (pos id) threads
      → AreValidActs api schedule d acts
      → (d' : State api) × (replies : _) × (run_acts api schedule d acts ≡ ok (d', replies))
        × ((t : Data api)
            → info_at d'.thread_map (pos id) ≡ ok (some t)
            → t.timer_triggered ≡ false)
  unfolding hash_function
  never_marked schedule yields d es threads acts st unmarked v =
      let (d', es', e, st') = run_acts-steps api schedule yielded yields d es threads acts st v in
      (
        d',
        _,
        e,
        λ t there.
            steps-IsUnmarked acts threads unmarked t
              (ok-injective (sym (st'.same (pos id) (id % max_threads, refl)) ∙ there)),
      )
