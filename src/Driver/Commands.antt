-- ===== src/Driver/Commands.antt =====
-- What each ioctl command does to the data of the thread that it names, and to everything else.
use ttex_kernel.Common.{
  ℕ, ◌≡◌, refl, ◌≢◌, inl, inr, true, false, none, some, arith, ◌==◌, Outcome, ok, if◌then◌else◌, ℤ,
  pos, eq_ℤ, Bool-cases, ne→==, >>=-eq-ok, [], ◌∷◌, ◌++◌,
}
use ttex_kernel.Timer.{TimerApi, Clock, Task, Copied}
use ttex_kernel.ThreadMap.{ThreadMap, hash_function, Ptr, null, load, insert, deref}
use ttex_kernel.ThreadMap.Chain.{Entries, find}
use ttex_kernel.ThreadMap.Refine.{IsMap}
use ttex_kernel.ThreadMap.Insert.{Inserted, insert-Inserted}
use ttex_kernel.ThreadMap.Lookup.{info_at-Inserted_new}
use ttex_kernel.ThreadMap.Info.{info_at, write_info, Updated}
use ttex_kernel.ThreadMap.Write.{update_found-Updated, write_info-Updated}
use ttex_kernel.Driver.{Data, State, UpdatedTimer, ReceiveTimer}
use ttex_kernel.Driver.Ioctl.{
  note_testing, started, stopped, budget, measure, start_value, start_timer, del_timer,
  mod_timer_new, get_timer,
}

module _ (api : TimerApi) where
  -- GET_TIMER of a known thread answers with the time that it stores.
  pub get_timer-measure :
      (d : State api) (now : Clock) (req : Copied ReceiveTimer) (t : Data api)
      → info_at d.thread_map req.content.id ≡ ok (some t)
      → (d' : State api) × (get_timer api d now req
          ≡ ok (
            d',
            some (record (req.content) {
              time_val = (measure api now req.content.time_val_to_sub t).executed_time;
            }),
          ))
        × Updated d.thread_map req.content.id
            (measure api now req.content.time_val_to_sub t)
            d'.thread_map
  unfolding get_timer
  get_timer-measure d now req t h =
      let (p, g, up, r) =
        write_info-Updated d.thread_map req.content.id (measure api now req.content.time_val_to_sub)
          t h in
      let (n, l, e) =
        >>=-eq-ok
          (deref (write_info d.thread_map p (measure api now req.content.time_val_to_sub)).nodes p)
          _ r in
      (
        record d {
          thread_map = write_info d.thread_map p (measure api now req.content.time_val_to_sub);
        },
        rw g (rw l (ground arith)),
        up,
      )

  -- DEL_TIMER of a known thread.
  pub del_timer-stopped :
      (d : State api) (id : Copied ℤ) (t : Data api)
      → info_at d.thread_map id.content ≡ ok (some t)
      → (d' : State api) × (del_timer api d id ≡ ok d')
        × Updated d.thread_map id.content (stopped api t) d'.thread_map
        × (eq_ℤ d.testing_id id.content ≡ true → d'.test_check ≡ false)
  unfolding del_timer
  del_timer-stopped d id t h =
      let (m', u, up) = update_found-Updated d.thread_map id.content (stopped api) t h in
      elim (Bool-cases (eq_ℤ d.testing_id id.content)) [
        | inl e ↦ (
          record d { value = id.content; test_check = false; thread_map = m' },
          rw e (rw u),
          up,
          λ _. refl,
        )
        | inr e ↦ (
          record d { value = id.content; thread_map = m' },
          rw e (rw u),
          up,
          λ z. absurd (ground (arith, e, z)),
        )
      ]

  pub note_testing-value : (d : State api) (task : Task) → (note_testing api d task).value ≡ d.value
  unfolding note_testing
  note_testing-value d task = ground arith

  pub note_testing-map :
      (d : State api) (task : Task) → (note_testing api d task).thread_map ≡ d.thread_map
  unfolding note_testing
  note_testing-map d task = ground arith

  -- `context_switch_start` of the block was just written 0, so `schedule()` is not called.
  pub start_value-ok :
      (schedule : State api → Outcome (State api)) (d : State api) (task : Task) (temp node : Ptr)
      (raw : Data api)
      → temp ≢ null
      → (m' : ThreadMap api.TimerList) → insert d.thread_map node d.value (started api raw) ≡ ok m'
      → start_value api schedule d task temp raw node
        ≡ ok (record (note_testing api d task) { thread_map = m' })
  unfolding start_value
  start_value-ok schedule d task temp node raw nt m' e =
      rw (ne→== temp null nt)
        (rw (note_testing-map d task, note_testing-value d task, e) (unfold started in refl))

  -- A new thread's START_TIMER adds its entry and its data; the data of every other thread stays.
  pub start_timer-started :
      (schedule : State api → Outcome (State api)) (d : State api) (task : Task) (es : Entries)
      (id : Copied ℤ) (temp node : Ptr) (raw : Data api) (i : ℕ)
      → IsMap d.thread_map es
      → temp ≢ null
      → node ≢ null
      → load d.thread_map.nodes node ≡ none
      → hash_function id.content ≡ pos i
      → (d' : State api) × (start_timer api schedule d task id temp raw node ≡ ok d')
        × (d'.value ≡ id.content)
        × Inserted d.thread_map es id.content (started api raw) node d'.thread_map
  unfolding start_timer
  start_timer-started schedule d task es id temp node raw i is nt nn unused h =
      let (m', e, ins) =
        insert-Inserted d.thread_map es id.content (started api raw) node i is nn unused h in
      let d1 = record d { value = id.content } in
      (
        record (note_testing api d1 task) { thread_map = m' },
        start_value-ok schedule d1 task temp node raw nt m' e,
        note_testing-value d1 task,
        ins,
      )

  -- An id that was new leads to the new data.
  pub start_timer-there :
      (schedule : State api → Outcome (State api)) (d : State api) (task : Task) (es : Entries)
      (id : Copied ℤ) (temp node : Ptr) (raw : Data api) (i : ℕ)
      → IsMap d.thread_map es
      → temp ≢ null
      → node ≢ null
      → load d.thread_map.nodes node ≡ none
      → hash_function id.content ≡ pos i
      → find id.content es ≡ none
      → (d' : State api) × (start_timer api schedule d task id temp raw node ≡ ok d')
        × IsMap d'.thread_map (es ++ ((id.content, node) ∷ []))
        × (info_at d'.thread_map id.content ≡ ok (some (started api raw)))
  start_timer-there schedule d task es id temp node raw i is nt nn unused h absent =
      let (d', e, _, ins) =
        start_timer-started schedule d task es id temp node raw i is nt nn unused h in
      (
        d',
        e,
        ins.is,
        info_at-Inserted_new d.thread_map es id.content (started api raw) node d'.thread_map is ins
            i h nn absent,
      )

  -- MOD_TIMER_NEW stores the budget, and yields the processor where the budget is not 0.
  pub mod_timer_new-budget :
      (schedule : State api → Outcome (State api)) (d : State api) (req : Copied UpdatedTimer)
      (t : Data api)
      → info_at d.thread_map req.content.id ≡ ok (some t)
      → (m' : ThreadMap api.TimerList) × Updated d.thread_map req.content.id
          (budget api req.content.time_val t)
          m'
        × (mod_timer_new api schedule d req ≡ (
            if req.content.time_val == 0
            then ok (record d { thread_map = m' })
            else schedule (record d { thread_map = m' })))
  unfolding mod_timer_new
  mod_timer_new-budget schedule d req t h =
      let (p, g, up, r) =
        write_info-Updated d.thread_map req.content.id (budget api req.content.time_val) t h in
      let (n, l, e) =
        >>=-eq-ok (deref (write_info d.thread_map p (budget api req.content.time_val)).nodes p) _
          r in
      let em : n.info.mod_msecs ≡ req.content.time_val = ground arith in
      (write_info d.thread_map p (budget api req.content.time_val), up, rw g (rw l (rw em)))
