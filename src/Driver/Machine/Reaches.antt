-- ===== src/Driver/Machine/Reaches.antt =====
-- What the code does to the threads, operation by operation.
use ttex_kernel.Common.{
  ℕ, ◌%◌, ◌≡◌, refl, inl, inr, false, ◌==◌, ◌∙◌, ltb, Outcome, ok, ℤ, pos, eq_ℤ, Bool-cases,
  if◌then◌else◌, arith,
}
use ttex_kernel.Timer.{TimerApi, Clock, Task, Copied}
use ttex_kernel.ThreadMap.{max_threads, hash_function}
use ttex_kernel.ThreadMap.Chain.{Entries}
use ttex_kernel.ThreadMap.Bounds.{arr_size_of_get}
use ttex_kernel.ThreadMap.Write.{update_found-none}
use ttex_kernel.ThreadMap.Abstract.{
  HasPlace, Threads, update, Stands, Updated-Stands, absent-Stands, update_found-Stands,
  thread-cases,
}
use ttex_kernel.Driver.{
  Data, State, UpdatedTimer, ReceiveTimer, no_reply, on_switch, pre_handler, post_handler, pause,
  resume,
}
use ttex_kernel.Driver.Ioctl.{
  flagged, stopped, budget, measure, mod_timer, del_timer, mod_timer_new, get_timer,
}
use ttex_kernel.Driver.Expiry.{trigger}
use ttex_kernel.Driver.Isolation.{Switch, out, in', task_of, effect, run_switch}
use ttex_kernel.Driver.Commands.{mod_timer_new-budget, get_timer-measure}
use ttex_kernel.Driver.Triggered.{timer_callback-trigger, timer_callback_unseen}
use ttex_kernel.Driver.Machine.{expired, budgeted, answer, run_act}

module _ (api : TimerApi) where
  -- The code runs to a state that stands for the threads, with the same entries in the map.
  abbrev pub Reaches : Outcome (State api) → Entries → Threads api.TimerList → Type 0
  Reaches r es threads = (d' : State api) × (r ≡ ok d') × Stands d'.thread_map es threads

  -- What `schedule()` does, the machine's view of it, and how the entries grow meanwhile.
  abbrev pub YieldsWithin :
      (Entries → Entries → Type 0)
      → (State api → Outcome (State api))
      → (Threads api.TimerList → Threads api.TimerList)
      → Type 0
  YieldsWithin Q schedule yielded =
      (d : State api) (es : Entries) (threads : Threads api.TimerList)
      → Stands d.thread_map es threads
      → (d' : State api) × (es' : Entries) × (schedule d ≡ ok d')
        × Stands d'.thread_map es' (yielded threads)
        × Q es es'

  pub mod_timer-Reaches :
      (d : State api) (es : Entries) (threads : Threads api.TimerList) (id : Copied ℤ)
      → Stands d.thread_map es threads
      → HasPlace id.content
      → Reaches (mod_timer api d id) es (update (flagged api) id.content threads)
  unfolding mod_timer
  mod_timer-Reaches d es threads id st place =
      let (m', u, st') =
        update_found-Stands d.thread_map es threads id.content (flagged api) st place in
      (record d { value = id.content; thread_map = m' }, rw u, st')

  pub del_timer-Reaches :
      (d : State api) (es : Entries) (threads : Threads api.TimerList) (id : Copied ℤ)
      → Stands d.thread_map es threads
      → HasPlace id.content
      → Reaches (del_timer api d id) es (update (stopped api) id.content threads)
  unfolding del_timer
  del_timer-Reaches d es threads id st place =
      let (m', u, st') =
        update_found-Stands d.thread_map es threads id.content (stopped api) st place in
      elim (Bool-cases (eq_ℤ d.testing_id id.content)) [
        | inl e ↦
            (record d { value = id.content; test_check = false; thread_map = m' }, rw e (rw u), st')
        | inr e ↦ (record d { value = id.content; thread_map = m' }, rw e (rw u), st')
      ]

  pub mod_timer_new-Reaches :
      (Q : Entries → Entries → Type 0) (schedule : State api → Outcome (State api))
      (yielded : Threads api.TimerList → Threads api.TimerList) (d : State api) (es : Entries)
      (threads : Threads api.TimerList) (req : Copied UpdatedTimer)
      → ((xs : Entries) → Q xs xs)
      → YieldsWithin Q schedule yielded
      → Stands d.thread_map es threads
      → HasPlace req.content.id
      → (d' : State api) × (es' : Entries) × (mod_timer_new api schedule d req ≡ ok d')
        × Stands d'.thread_map es' (budgeted api yielded req threads)
        × Q es es'
  mod_timer_new-Reaches Q schedule yielded d es threads req same yields st place =
      let k = req.content.id in
      let f = budget api req.content.time_val in
      elim (thread-cases d.thread_map es threads k st place) [
        | inl (g, _, absent) ↦
            (d, es, unfold mod_timer_new in rw g refl, rw (budgeted, absent) st, same es)
        | inr (t, p, g, there, now) ↦
            let (m', up, e) = mod_timer_new-budget api schedule d req t there in
            let st' = Updated-Stands d.thread_map m' es threads k f t st place there up in
            elim (Bool-cases (req.content.time_val == 0)) [
              | inl z ↦ (
                record d { thread_map = m' },
                es,
                e ∙ rw z refl,
                rw (budgeted, now, z) st',
                same es,
              )
              | inr z ↦
                  let (d2, es2, e2, st2, grown) =
                    yields (record d { thread_map = m' }) es (update f k threads) st' in
                  (d2, es2, e ∙ rw z e2, rw (budgeted, now, z) st2, grown)
            ]
      ]

  pub get_timer-Reaches :
      (d : State api) (es : Entries) (threads : Threads api.TimerList) (now : Clock)
      (req : Copied ReceiveTimer)
      → Stands d.thread_map es threads
      → HasPlace req.content.id
      → (d' : State api) × (get_timer api d now req ≡ ok (d', answer api (λ x. x) now req threads))
        × Stands d'.thread_map es
            (update (measure api now req.content.time_val_to_sub) req.content.id threads)
  get_timer-Reaches d es threads now req st place =
      let k = req.content.id in
      let f = measure api now req.content.time_val_to_sub in
      elim (thread-cases d.thread_map es threads k st place) [
        | inl (g, _, absent) ↦ (
          d,
          unfold get_timer in rw (g, absent) refl,
          absent-Stands d.thread_map es threads k f st absent,
        )
        | inr (t, p, g, there, here) ↦
            let (d', e, up) = get_timer-measure api d now req t there in
            (
              d',
              rw here e,
              Updated-Stands d.thread_map d'.thread_map es threads k f t st place there up,
            )
      ]

  on_switch-Reaches :
      (d : State api) (es : Entries) (threads : Threads api.TimerList) (task : Task)
      (f : Data api → Data api)
      → Stands d.thread_map es threads
      → HasPlace task.pid
      → Reaches
          (on_switch api f d task)
          es
          (if task.rt_priority == 10 then update f task.pid threads else threads)
  unfolding on_switch
  on_switch-Reaches d es threads task f st place = elim (Bool-cases (task.rt_priority == 10)) [
    | inr e ↦ (d, rw e refl, rw e st)
    | inl e ↦ elim (thread-cases d.thread_map es threads task.pid st place) [
      | inl (g, _, absent) ↦ (
        d,
        rw e (rw (update_found-none d.thread_map task.pid f g) (ground arith)),
        rw e (absent-Stands d.thread_map es threads task.pid f st absent),
      )
      | inr (t, p, g, there, _) ↦
          let (m', u, st') = update_found-Stands d.thread_map es threads task.pid f st place in
          (
            record d { thread_map = m' },
            rw (e, arr_size_of_get d.thread_map es task.pid p st.is g, u) refl,
            rw e st',
          )
    ]
  ]

  pub run_switch-Reaches :
      (d : State api) (es : Entries) (threads : Threads api.TimerList) (s : Switch)
      → Stands d.thread_map es threads
      → HasPlace (task_of s).pid
      → Reaches (run_switch api d s) es (
          if (task_of s).rt_priority == 10
          then update (effect api s) (task_of s).pid threads
          else threads)
  unfolding run_switch pre_handler post_handler
  run_switch-Reaches d es threads (out task now) st place =
      on_switch-Reaches d es threads task (pause api now) st place
  run_switch-Reaches d es threads (in' task now) st place =
      on_switch-Reaches d es threads task (resume api now) st place

  pub expired-Reaches :
      (schedule : State api → Outcome (State api)) (d : State api) (es : Entries)
      (threads : Threads api.TimerList) (id : ℕ)
      → Stands d.thread_map es threads
      → (d' : State api) × (run_act api schedule d (expired id) ≡ ok (d', no_reply 0))
        × Stands d'.thread_map es
            (if ltb id max_threads then update trigger (pos id) threads else threads)
  unfolding run_act hash_function
  expired-Reaches schedule d es threads id st =
      let place : HasPlace (pos id) = (id % max_threads, refl) in
      elim (thread-cases d.thread_map es threads (pos id) st place) [
        | inl (g, _, absent) ↦ elim (Bool-cases (ltb id max_threads)) [
          | inl z ↦ (
            d,
            rw g refl,
            rw z (absent-Stands d.thread_map es threads (pos id) trigger st absent),
          )
          | inr z ↦ (d, rw g refl, rw z st)
        ]
        | inr (t, p, g, there, _) ↦ elim (Bool-cases (ltb id max_threads)) [
          | inl z ↦
              let (q, d', gq, e, up) =
                timer_callback-trigger d es id t st.is there (ground arith) in
              let same : q ≡ p = cc in
              (
                d',
                rw g (rw (← same, e) refl),
                rw z (
                    Updated-Stands d.thread_map d'.thread_map es threads (pos id) trigger t st place
                      there up),
              )
          | inr z ↦
              (d, rw g (rw (timer_callback_unseen d es id p st.is g (ground arith)) refl), rw z st)
        ]
      ]
