-- ===== src/Driver/Race.antt =====
-- START_TIMER reads the id into the global `value`, and inserts what `value` holds later. No lock is
-- taken: two threads that start together can read their ids before either inserts.
use ttex_kernel.Common.{
  ℕ, ◌≡◌, ◌≢◌, none, [], ◌∷◌, ◌++◌, arith, ◌∙◌, ap, ◌>>=◌, Outcome, ok, ℤ, pos, eq_ℤ→eq,
}
use ttex_kernel.Timer.{TimerApi, Task}
use ttex_kernel.ThreadMap.{Ptr, null, get, hash_function, load}
use ttex_kernel.ThreadMap.Chain.{Entries, find}
use ttex_kernel.ThreadMap.Refine.{IsMap, get-find}
use ttex_kernel.ThreadMap.Insert.{Inserted, insert-Inserted}
use ttex_kernel.ThreadMap.Lookup.{find-append_none}
use ttex_kernel.Driver.{Data, State}
use ttex_kernel.Driver.Ioctl.{start_value, started, note_testing}
use ttex_kernel.Driver.Commands.{start_value-ok, note_testing-value}

-- What a caller of START_TIMER brings: its task, its id, the two allocated blocks.
pub record Starter (api : TimerApi) : Type 0 where
  pub task : Task
  pub id : ℤ
  pub temp : Ptr
  pub raw : Data api
  pub node : Ptr

module _ (api : TimerApi) (schedule : State api → Outcome (State api)) where
  -- Both copies to `value`, the second caller's last, and then both insertions.
  unfoldable pub together : State api → (first second : Starter api) → Outcome (State api)
  together d a b =
      let d' = record (record d { value = a.id }) { value = b.id } in
      start_value api schedule d' a.task a.temp a.raw a.node >>= λ d1.
      start_value api schedule d1 b.task b.temp b.raw b.node

  start_value-Inserted :
      (d : State api) (es : Entries) (s : Starter api) (i : ℕ)
      → IsMap d.thread_map es
      → hash_function d.value ≡ pos i
      → s.temp ≢ null
      → s.node ≢ null
      → load d.thread_map.nodes s.node ≡ none
      → (d' : State api) × (start_value api schedule d s.task s.temp s.raw s.node ≡ ok d')
        × (d'.value ≡ d.value)
        × Inserted d.thread_map es d.value (started api s.raw) s.node d'.thread_map
  start_value-Inserted d es s i is h nt nn unused =
      let (m', e, ins) =
        insert-Inserted d.thread_map es d.value (started api s.raw) s.node i is nn unused h in
      (
        record (note_testing api d s.task) { thread_map = m' },
        start_value-ok api schedule d s.task s.temp s.node s.raw nt m' e,
        note_testing-value api d s.task,
        ins,
      )

  find_other :
      (a b : ℤ) (es : Entries) (p : Ptr)
      → a ≢ b
      → find a es ≡ none
      → find a (es ++ ((b, p) ∷ [])) ≡ none
  find_other a b es p ne h = ground (arith, find-append_none a es b p, eq_ℤ→eq b a)

  -- Two callers of START_TIMER with different ids that have a place in the array, both allocations
  -- of each successful and at different fresh addresses, of which both copy their ids to `value`
  -- before either inserts: the map then has two entries of the second id, and a first id that was
  -- not in the map is still not there.
  pub lost_start :
      (d : State api) (es : Entries) (a b : Starter api) (i j : ℕ)
      → IsMap d.thread_map es
      → hash_function a.id ≡ pos i
      → hash_function b.id ≡ pos j
      → a.id ≢ b.id
      → find a.id es ≡ none
      → a.temp ≢ null
      → b.temp ≢ null
      → a.node ≢ null
      → b.node ≢ null
      → a.node ≢ b.node
      → load d.thread_map.nodes a.node ≡ none
      → load d.thread_map.nodes b.node ≡ none
      → (d' : State api) × (together d a b ≡ ok d')
        × IsMap d'.thread_map ((es ++ ((b.id, a.node) ∷ [])) ++ ((b.id, b.node) ∷ []))
        × (get d'.thread_map a.id ≡ ok none)
  unfolding together
  lost_start d es a b i j is ha hb apart absent ta tb na nb two ua ub =
      let d0 = record d { value = b.id } in
      let (d1, e1, v1, ins1) = start_value-Inserted d0 es a j is hb ta na ua in
      let (d2, e2, v2, ins2) =
        start_value-Inserted d1 (es ++ ((b.id, a.node) ∷ [])) b j ins1.is (ap hash_function v1 ∙ hb)
          tb nb (ins1.unused b.node two ub) in
      let is2 : IsMap d2.thread_map ((es ++ ((b.id, a.node) ∷ [])) ++ ((b.id, b.node) ∷ [])) =
        rw v1 at (ins2.is) in
      (
        d2,
        rw e1 e2,
        is2,
        get-find d2.thread_map _ a.id i is2 ha
            ∙ ap ok
                (find_other a.id b.id _ b.node apart (find_other a.id b.id es a.node apart absent)),
      )
