-- ===== src/Tools/Team.antt =====
-- A team of threads under the tool of profiler.h, in the module of ttex_kernel.c: the threads begin
-- one after the other, in any order, and only the main one sends PARENT_ID.
use ttex_kernel.Common.{
  ℕ, zero, suc, ◌∙◌, sym, ◌≡◌, refl, ◌⊎◌, inl, inr, ◌&&◌, Bool, true, false, some, List, [], ◌∷◌,
  ◌++◌, arith, if◌then◌else◌, length, length-set, get_elem?, get_elem?-lt, set, ℤ, pos, negsuc,
  ◌-ℤ◌, Outcome, ok, fault, out_of_fuel, subst, ◌>>=◌, ltb→lt, Bool-cases,
}
use ttex_kernel.Timer.{TimerApi}
use ttex_kernel.Legacy.{State, Entry, Request, at_index, etx_ioctl, on_value, started, max_threads}
use ttex_kernel.Legacy.Unarmed.{is_index, at_index-fault}
use ttex_kernel.Device.{legacy_call, open_file, release, unlocked_ioctl, file_call}
use ttex_kernel.Tools.{
  start_timer, mod_timer_new, del_timer, TeamCommand, parent_id, command, Call, set_scheduler,
  set_affinity, open_device, ioctl, close, team_thread_begin, my_next_id,
}

abbrev request_of : TeamCommand → Request
request_of (parent_id id) = Request.parent (record { content = id; failed = false })
request_of (command (start_timer id)) =
    Request.start_timer (record { content = id; failed = false })
request_of (command (mod_timer_new u)) =
    Request.mod_timer_new (record { content = u; failed = false })
request_of (command (del_timer id)) = Request.del_timer (record { content = id; failed = false })

-- A thread that begins: whether it is the main one, its open file, its id.
pub record Member : Type 0 where
  pub main : Bool
  pub fd : ℕ
  pub tid : ℤ

-- The calls of all threads that begin, in their order.
unfoldable pub begins : (counter : ℕ) → List Member → List (Call TeamCommand)
begins counter [] = []
begins counter (m ∷ ms) =
    let (counter', info, calls) = team_thread_begin m.main counter (pos m.fd) m.tid in
    calls ++ begins counter' ms

-- The parent's id behind a member's begin.
abbrev pub parent_behind : ℤ → Member → ℤ
parent_behind parent m = if m.main then m.tid else parent

-- Each member's difference to the parent's id of its time is an index.
unfoldable pub all_fit : ℤ → List Member → Bool
all_fit parent [] = true
all_fit parent (m ∷ ms) =
    is_index (m.tid -ℤ parent_behind parent m) && all_fit (parent_behind parent m) ms

module _ (api : TimerApi) where
  unfoldable pub run_team_call : State api → Call TeamCommand → Outcome (State api)
  run_team_call d (set_scheduler p) = ok d
  run_team_call d (set_affinity c) = ok d
  run_team_call d open_device = legacy_call api d open_file >>= λ (d', r). ok d'
  run_team_call d (ioctl c) = legacy_call api d (unlocked_ioctl (request_of c)) >>= λ (d', r). ok d'
  run_team_call d close = legacy_call api d release >>= λ (d', r). ok d'

  unfoldable pub run_team : State api → List (Call TeamCommand) → Outcome (State api)
  run_team d [] = ok d
  run_team d (c ∷ cs) = run_team_call d c >>= λ d'. run_team d' cs

  -- The timer of an entry is set up.
  abbrev pub IsSetUp : List (Entry api) → ℕ → Type 0
  IsSetUp ss i = (s : Entry api) × (get_elem? ss i ≡ some s) × (s.timer_set ≡ true)

  abbrev pub AllSet : List (Entry api) → ℤ → List Member → Type 0
  AllSet ss parent [] = Unit
  AllSet ss parent (m ∷ ms) =
      ((i : ℕ) × (m.tid -ℤ parent_behind parent m ≡ pos i) × IsSetUp ss i)
      × AllSet ss (parent_behind parent m) ms

module _ (api : TimerApi) where
  IsSetUp-set :
      (ss : List (Entry api)) (i j : ℕ) (s : Entry api)
      → s.timer_set ≡ true
      → IsSetUp api ss i
      → IsSetUp api (set ss j s) i
  IsSetUp-set [] i j s h is = is
  IsSetUp-set (x ∷ ss) zero zero s h is = (s, refl, h)
  IsSetUp-set (x ∷ ss) zero (suc j) s h is = is
  IsSetUp-set (x ∷ ss) (suc i) zero s h is = is
  IsSetUp-set (x ∷ ss) (suc i) (suc j) s h is = IsSetUp-set ss i j s h is

  IsSetUp-here :
      (ss : List (Entry api)) (i : ℕ) (s x : Entry api)
      → get_elem? ss i ≡ some x
      → s.timer_set ≡ true
      → IsSetUp api (set ss i s) i
  IsSetUp-here [] i s x e h = cc
  IsSetUp-here (y ∷ ss) zero s x e h = (s, refl, h)
  IsSetUp-here (y ∷ ss) (suc i) s x e h = IsSetUp-here ss i s x e h

  -- START_TIMER inside the arrays sets an entry up, and keeps those that are.
  record Started (d : State api) (i : ℤ) (d' : State api) : Type 0 where
    place : ℕ
    at : i ≡ pos place
    here : IsSetUp api d'.slots place
    keeps : (j : ℕ) → IsSetUp api d.slots j → IsSetUp api d'.slots j
    size : length d'.slots ≡ max_threads
    parent : d'.parent_id ≡ d.parent_id

  at_index-Started :
      (d : State api) (i : ℤ)
      → length d.slots ≡ max_threads
      → is_index i ≡ true
      → (d' : State api) × (at_index d i (started api) ≡ ok d') × Started d i d'
  unfolding at_index
  at_index-Started d (negsuc i) n e = cc
  at_index-Started d (pos i) n e =
      let (s, g) = get_elem?-lt d.slots i (omega (arith, n, ltb→lt i max_threads e)) in
      (
        record d { slots = set d.slots i (started api s) },
        rw g,
        record {
          place = i;
          at = refl;
          here = IsSetUp-here d.slots i (started api s) s g refl;
          keeps = λ j is. IsSetUp-set d.slots j i (started api s) refl is;
          size = length-set d.slots i (started api s) ∙ n;
          parent = refl;
        },
      )

  drop_answer :
      {B : Type 0} (o : Outcome (State api)) (k : State api → Outcome B)
      → (((o >>= λ s. ok (s, pos 0)) >>= λ (s, r). ok s) >>= k) ≡ (o >>= k)
  drop_answer (ok s) k = refl
  drop_answer fault k = refl
  drop_answer out_of_fuel k = refl

  -- The state in which a member's START_TIMER reaches the entries.
  abbrev asked : State api → Member → State api
  asked d m = record d { parent_id = parent_behind d.parent_id m; value = m.tid }

  member_runs :
      (main : Bool) (fd : ℕ) (tid : ℤ) (counter : ℕ) (d : State api)
      (rest : List (Call TeamCommand))
      → let m : Member = record { main = main; fd = fd; tid = tid } in
        run_team api d ((team_thread_begin main counter (pos fd) tid).2 ++ rest) ≡ (
          at_index (asked d m) (tid -ℤ parent_behind d.parent_id m) (started api) >>= λ d'.
          run_team api d' rest)
  unfolding team_thread_begin my_next_id run_team run_team_call legacy_call file_call etx_ioctl
      on_value
  member_runs true fd tid counter d rest = drop_answer (at_index _ _ (started api)) _
  member_runs false fd tid counter d rest = drop_answer (at_index _ _ (started api)) _

  record Begun (d : State api) (ms : List Member) (d' : State api) : Type 0 where
    keeps : (j : ℕ) → IsSetUp api d.slots j → IsSetUp api d'.slots j
    all : AllSet api d'.slots d.parent_id ms

  begin_one :
      (d : State api) (m : Member) (ms : List Member) (d1 d' : State api)
      → Started (asked d m) (m.tid -ℤ parent_behind d.parent_id m) d1
      → Begun d1 ms d'
      → Begun d (m ∷ ms) d'
  begin_one d m ms d1 d' st b = record {
    keeps = λ j is. b.keeps j (st.keeps j is);
    all = (
      (st.place, st.at, b.keeps st.place st.here),
      subst (λ p. AllSet api d'.slots p ms) st.parent b.all,
    );
  }

  begins-Begun :
      (d : State api) (counter : ℕ) (ms : List Member)
      → length d.slots ≡ max_threads
      → ((all_fit d.parent_id ms ≡ true)
          × (d' : State api) × (run_team api d (begins counter ms) ≡ ok d')
          × Begun d ms d')
        ⊎ ((all_fit d.parent_id ms ≡ false) × (run_team api d (begins counter ms) ≡ fault))
  unfolding begins all_fit run_team
  begins-Begun d counter [] n = inl (refl, d, refl, record { keeps = λ j is. is; all = tt })
  begins-Begun d counter (m ∷ ms) n =
      let i = m.tid -ℤ parent_behind d.parent_id m in
      let counter' = (team_thread_begin m.main counter (pos m.fd) m.tid).0 in
      let run = member_runs m.main m.fd m.tid counter d (begins counter' ms) in
      elim (Bool-cases (is_index i)) [
        | inr off ↦
            inr (rw off, run ∙ rw ((at_index-fault api (asked d m) i (started api) n).1 off))
        | inl hit ↦
            let (d1, e1, st) = at_index-Started (asked d m) i n hit in
            elim (begins-Begun d1 counter' ms st.size) [
              | inl (fit, d', e, b) ↦
                  inl (
                    rw hit (rw (sym st.parent) fit),
                    d',
                    run ∙ rw e1 e,
                    begin_one d m ms d1 d' st b,
                  )
              | inr (unfit, e) ↦ inr (rw hit (rw (sym st.parent) unfit), run ∙ rw e1 e)
            ]
      ]

  -- Threads that begin one after the other under the tool of profiler.h, over arrays of 50 entries:
  -- either the difference of each one's id to the parent's id of that time is an index, and all
  -- their calls succeed and leave `timer_set` 1 at every one's index; or one's is not, and a call
  -- accesses memory outside the arrays.
  pub team_begins :
      (d : State api) (counter : ℕ) (ms : List Member)
      → length d.slots ≡ max_threads
      → ((all_fit d.parent_id ms ≡ true)
          × (d' : State api) × (run_team api d (begins counter ms) ≡ ok d')
          × AllSet api d'.slots d.parent_id ms)
        ⊎ ((all_fit d.parent_id ms ≡ false) × (run_team api d (begins counter ms) ≡ fault))
  team_begins d counter ms n = elim (begins-Begun d counter ms n) [
    | inl (fit, d', e, b) ↦ inl (fit, d', e, b.all)
    | inr (unfit, e) ↦ inr (unfit, e)
  ]
