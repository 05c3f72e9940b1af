-- ===== src/Legacy/Unarmed.antt =====
-- The timers of ttex_kernel.c along its histories, and the ids for which its commands stay inside the
-- arrays.
use ttex_kernel.Common.{
  ℕ, zero, suc, ◌≡◌, refl, inl, inr, arith, Bool, false, some, List, [], ◌∷◌, length, get_elem?,
  get_elem?-lt, set, ℤ, pos, negsuc, ◌-ℤ◌, ok, fault, ok-injective, ltb, ltb→lt, ltb→ge,
  get_elem?-ge, subst, ◌==◌, Bool-cases, ◌↔◌, if◌then◌else◌, Option-cases,
}
use ttex_kernel.Timer.{TimerApi, IsTimerApi, Clock, Task, Copied}
use ttex_kernel.Lifecycle.{Answers}
use ttex_kernel.Legacy.{
  max_threads, Request, at_index, State, Entry, started, stopped, flagged, budget, on_value,
  etx_ioctl, pause, resume, pre_handler, post_handler, clear_slots, ttex_kernel_init,
}

module _ (api : TimerApi) where
  -- A history of the module.
  pub data Reach (d0 : State api) : State api → Type 0 where
    start : Reach d0 d0
    ioctl : {d d' : State api} (r : Request) → Reach d0 d → etx_ioctl api d r ≡ ok d' → Reach d0 d'
    switch_out :
        {d d' : State api} (task : Task) (now : Clock)
        → Reach d0 d
        → pre_handler api d task now ≡ ok d'
        → Reach d0 d'
    switch_in :
        {d d' : State api} (task : Task) (now : Clock)
        → Reach d0 d
        → post_handler api d task now ≡ ok d'
        → Reach d0 d'

  abbrev pub IsIdle : Entry api → Type 0
  IsIdle s = api.timer_pending s.thread_timer ≡ false

  abbrev pub AllIdle : List (Entry api) → Type 0
  AllIdle [] = Unit
  AllIdle (s ∷ ss) = IsIdle s × AllIdle ss

module _ (api : TimerApi) where
  AllIdle-set :
      (ss : List (Entry api)) (i : ℕ) (s : Entry api)
      → AllIdle api ss
      → IsIdle api s
      → AllIdle api (set ss i s)
  AllIdle-set [] i s h hs = tt
  AllIdle-set (x ∷ ss) zero s h hs = (hs, h.1)
  AllIdle-set (x ∷ ss) (suc i) s h hs = (h.0, AllIdle-set ss i s h.1 hs)

  AllIdle-get :
      (ss : List (Entry api)) (i : ℕ) (s : Entry api)
      → AllIdle api ss
      → get_elem? ss i ≡ some s
      → IsIdle api s
  AllIdle-get [] i s h e = cc
  AllIdle-get (x ∷ ss) zero s h e = ground arith
  AllIdle-get (x ∷ ss) (suc i) s h e = AllIdle-get ss i s h.1 e

  -- An update that keeps an entry idle keeps them all idle.
  at_index-AllIdle :
      (d d' : State api) (i : ℤ) (f : Entry api → Entry api)
      → ((s : Entry api) → IsIdle api s → IsIdle api (f s))
      → AllIdle api d.slots
      → at_index d i f ≡ ok d'
      → AllIdle api d'.slots
  unfolding at_index
  at_index-AllIdle d d' (negsuc i) f keep h e = cc
  at_index-AllIdle d d' (pos i) f keep h e = elim (Option-cases (get_elem? d.slots i)) [
    | inl n ↦ absurd (ground (arith, e, n))
    | inr (s, g) ↦
        let e' : ok (record d { slots = set d.slots i (f s) }) ≡ ok d' = rw g at e in
        subst (λ (x : State api). AllIdle api x.slots) (ok-injective e')
          (AllIdle-set d.slots i (f s) h (keep s (AllIdle-get d.slots i s h g)))
  ]

  module _ (laws : IsTimerApi api) where
    pause-IsIdle : (now : Clock) (s : Entry api) → IsIdle api s → IsIdle api (pause api now s)
    unfolding pause
    pause-IsIdle now s h = ground arith

    resume-IsIdle : (now : Clock) (s : Entry api) → IsIdle api s → IsIdle api (resume api now s)
    unfolding resume
    resume-IsIdle now s h = ground arith

    ioctl-AllIdle :
        (d d' : State api) (r : Request)
        → AllIdle api d.slots
        → etx_ioctl api d r ≡ ok d'
        → AllIdle api d'.slots
    unfolding etx_ioctl on_value
    ioctl-AllIdle d d' (Request.parent id) h e =
        subst (λ (x : State api). AllIdle api x.slots) (ok-injective e) h
    ioctl-AllIdle d d' (Request.start_timer id) h e =
        at_index-AllIdle (record d { value = id.content }) d' _ (started api)
          (λ s _. laws.pending_of_setup s.thread_timer) h e
    ioctl-AllIdle d d' (Request.mod_timer id) h e =
        at_index-AllIdle (record d { value = id.content }) d' _ (flagged api) (λ s k. k) h e
    ioctl-AllIdle d d' (Request.del_timer id) h e =
        at_index-AllIdle (record d { value = id.content }) d' _ (stopped api)
          (λ s _. laws.pending_of_del s.thread_timer) h e
    ioctl-AllIdle d d' (Request.mod_timer_new req) h e =
        at_index-AllIdle d d' _ (budget api req.content.time_val) (λ s k. k) h e
    ioctl-AllIdle d d' Request.default h e =
        subst (λ (x : State api). AllIdle api x.slots) (ok-injective e) h

    switch-AllIdle :
        (d d' : State api) (task : Task) (f : Entry api → Entry api)
        → ((s : Entry api) → IsIdle api s → IsIdle api (f s))
        → AllIdle api d.slots
        → (if task.rt_priority == 10 then at_index d (task.pid -ℤ d.parent_id) f else ok d) ≡ ok d'
        → AllIdle api d'.slots
    switch-AllIdle d d' task f keep h e = elim (Bool-cases (task.rt_priority == 10)) [
      | inl p ↦ at_index-AllIdle d d' _ f keep h (rw p at e)
      | inr p ↦
          let e' : ok d ≡ ok d' = rw p at e in
          subst (λ (x : State api). AllIdle api x.slots) (ok-injective e') h
    ]

    reached_idle : (d0 d : State api) → AllIdle api d0.slots → Reach api d0 d → AllIdle api d.slots
    unfolding pre_handler post_handler
    reached_idle d0 d h start = h
    reached_idle d0 d h (ioctl {d = x} r reach e) =
        ioctl-AllIdle x d r (reached_idle d0 x h reach) e
    reached_idle d0 d h (switch_out {d = x} task now reach e) =
        switch-AllIdle x d task (pause api now) (pause-IsIdle now) (reached_idle d0 x h reach) e
    reached_idle d0 d h (switch_in {d = x} task now reach e) =
        switch-AllIdle x d task (resume api now) (resume-IsIdle now) (reached_idle d0 x h reach) e

    clear_slots-AllIdle : (ss : List (Entry api)) → AllIdle api ss → AllIdle api (clear_slots ss)
    unfolding clear_slots
    clear_slots-AllIdle [] h = tt
    clear_slots-AllIdle (s ∷ ss) h = (h.0, clear_slots-AllIdle ss h.1)

    -- In every history of the loaded module of ttex_kernel.c whose arrays first hold no queued
    -- timer, as zeroed memory does, no timer is queued.
    pub never_armed :
        (a : Answers) (d0 d : State api)
        → AllIdle api d0.slots
        → Reach api (ttex_kernel_init a d0).0 d
        → AllIdle api d.slots
    unfolding ttex_kernel_init
    never_armed a d0 d h = reached_idle (ttex_kernel_init a d0).0 d (clear_slots-AllIdle d0.slots h)

-- Whether a difference of ids is an index of the arrays.
abbrev pub is_index : ℤ → Bool
is_index (pos i) = ltb i max_threads
is_index (negsuc i) = false

module _ (api : TimerApi) where
  pub at_index-fault :
      (d : State api) (i : ℤ) (f : Entry api → Entry api)
      → length d.slots ≡ max_threads
      → (at_index d i f ≡ fault) ↔ (is_index i ≡ false)
  unfolding at_index
  at_index-fault d (negsuc i) f n = (λ _. refl, λ _. refl)
  at_index-fault d (pos i) f n = elim (Bool-cases (ltb i max_threads)) [
    | inl e ↦
        let (s, g) = get_elem?-lt d.slots i (omega (arith, n, ltb→lt i max_threads e)) in
        (λ h. absurd (ground (arith, h, g)), λ h. absurd (ground (arith, h, e)))
    | inr e ↦ (λ _. e, λ _. rw (get_elem?-ge d.slots i (omega (arith, n, ltb→ge i max_threads e))))
  ]

  -- With arrays of 50 entries, START_TIMER of ttex_kernel.c accesses memory outside of them exactly
  -- where the difference of the id to the parent's is negative or 50 and more.
  pub start_fault :
      (d : State api) (id : Copied ℤ)
      → length d.slots ≡ max_threads
      → (etx_ioctl api d (Request.start_timer id) ≡ fault)
        ↔ (is_index (id.content -ℤ d.parent_id) ≡ false)
  unfolding etx_ioctl on_value
  start_fault d id n =
      at_index-fault (record d { value = id.content }) (id.content -ℤ d.parent_id) (started api) n
