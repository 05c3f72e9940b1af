-- ===== src/Driver/Switch.antt =====
-- What a switch out and the switch in behind it do to the data of one thread: the budget of its
-- timer, and the time off the processor.
use ttex_kernel.Common.{
  ℕ, ◌+◌, ◌-◌, ◌%◌, ◌≤◌, ◌<◌, ◌≡◌, refl, true, false, List, [], ◌∷◌, arith, ◌∙◌, ne→==,
}
use ttex_kernel.Timer.{TimerApi, IsTimerApi, Clock, add64, sub64, u64_mod, u32_mod}
use ttex_kernel.ThreadMap.{ThreadData}
use ttex_kernel.Driver.{Data, pause, resume}
use ttex_kernel.Driver.Ioctl.{measure, budget}

-- The flags under which the handlers act.
pub record IsTimed {T : Type 0} (t : ThreadData T) : Type 0 where
  pub set : t.timer_set ≡ true
  pub running : t.timer_triggered ≡ false

-- One stay off the processor: the readings at its switch out and at its switch in.
pub record Stay : Type 0 where
  pub from : Clock
  pub to : Clock

module _ (api : TimerApi) where
  abbrev pub away : Stay → Data api → Data api
  away s t = resume api s.to (pause api s.from t)

  abbrev pub aways : List Stay → Data api → Data api
  aways [] t = t
  aways (s ∷ ss) t = aways ss (away s t)

-- The stays follow one another from time `a` to time `b`, in nanoseconds of 64 bits.
abbrev pub InOrder : ℕ → List Stay → ℕ → Type 0
InOrder a [] b = (a ≤ b) × (b < u64_mod)
InOrder a (s ∷ ss) b = (a ≤ s.from.ktime) × (s.from.ktime ≤ s.to.ktime) × InOrder s.to.ktime ss b

-- The nanoseconds off the processor.
abbrev pub off_time : List Stay → ℕ
off_time [] = 0
off_time (s ∷ ss) = (s.to.ktime - s.from.ktime) + off_time ss

pub InOrder-lt :
    (a : ℕ) (ss : List Stay) (b : ℕ) → InOrder a ss b → (a + off_time ss ≤ b) × (b < u64_mod)
InOrder-lt a [] b o = omega arith
InOrder-lt a (s ∷ ss) b (o1, o2, o) = omega (arith, InOrder-lt s.to.ktime ss b o)

module _ (api : TimerApi) (laws : IsTimerApi api) where
  open api use {expires, timer_pending, msecs_to_jiffies}

  pub away-IsTimed : (s : Stay) (t : Data api) → IsTimed t → IsTimed (away api s t)
  unfolding pause resume
  away-IsTimed s t h = ground arith

  away-total :
      (s : Stay) (t : Data api)
      → IsTimed t
      → (away api s t).total_paused_time ≡ add64 t.total_paused_time (sub64 s.to.ktime s.from.ktime)
  unfolding pause resume
  away-total s t h = ground arith

  away-get_kern_time : (s : Stay) (t : Data api) → (away api s t).get_kern_time ≡ t.get_kern_time
  unfolding pause resume
  away-get_kern_time s t = ground arith

  pub away-timer :
      (s : Stay) (t : Data api)
      → IsTimed t
      → t.mod_msecs ≡ 0
      → (away api s t).thread_timer
        ≡ api.mod_timer
            (api.del_timer t.thread_timer)
            (add64 s.to.jiffies (sub64 (expires t.thread_timer) s.from.jiffies))
  unfolding pause resume
  away-timer s t h z = ground arith

  away-new_timer :
      (s : Stay) (t : Data api)
      → IsTimed t
      → 0 < t.mod_msecs
      → (away api s t).thread_timer
        ≡ api.mod_timer
            (api.del_timer (api.del_timer t.thread_timer))
            (add64 s.to.jiffies (msecs_to_jiffies (t.mod_msecs % u32_mod)))
  unfolding pause resume
  away-new_timer s t h z = ground arith

  pub away-mod_msecs : (s : Stay) (t : Data api) → IsTimed t → (away api s t).mod_msecs ≡ 0
  unfolding pause resume
  away-mod_msecs s t h = ground arith

  -- Behind a first stay no budget is pending.
  pub aways-mod_msecs :
      (s : Stay) (ss : List Stay) (t : Data api) → IsTimed t → (aways api (s ∷ ss) t).mod_msecs ≡ 0
  aways-mod_msecs s [] t h = away-mod_msecs s t h
  aways-mod_msecs s (s' ∷ ss) t h = aways-mod_msecs s' ss (away api s t) (away-IsTimed s t h)

  -- For a timed thread without a new budget, a switch out and the switch in behind it, which reads
  -- a 64-bit counter of jiffies, leave the timer queued with as many jiffies to go, modulo 2 ^ 64,
  -- as at the switch out.
  pub away-budget :
      (s : Stay) (t : Data api)
      → IsTimed t
      → t.mod_msecs ≡ 0
      → s.to.jiffies < u64_mod
      → (timer_pending (away api s t).thread_timer ≡ true)
        × (sub64 (expires (away api s t).thread_timer) s.to.jiffies
            ≡ sub64 (expires t.thread_timer) s.from.jiffies)
  away-budget s t h z small =
      rw (away-timer s t h z, laws.pending_of_mod, laws.expires_of_mod) (refl, omega arith)

  -- A new budget counts from the switch in, whatever was left of the old one, and is used up.
  pub away-new_budget :
      (s : Stay) (t : Data api) (msecs : ℕ)
      → IsTimed t
      → 0 < msecs
      → (timer_pending (away api s (budget api msecs t)).thread_timer ≡ true)
        × (expires (away api s (budget api msecs t)).thread_timer
            ≡ add64 s.to.jiffies (msecs_to_jiffies (msecs % u32_mod)))
        × ((away api s (budget api msecs t)).mod_msecs ≡ 0)
  away-new_budget s t msecs h some =
      let h' : IsTimed (budget api msecs t) = record { set = h.set; running = h.running } in
      rw (away-new_timer s (budget api msecs t) h' some, laws.pending_of_mod, laws.expires_of_mod)
        (refl, refl, away-mod_msecs s (budget api msecs t) h')

  -- The time off the processor that the stays add.
  pub aways-total :
      (a b : ℕ) (ss : List Stay) (t : Data api)
      → IsTimed t
      → InOrder a ss b
      → t.total_paused_time + off_time ss < u64_mod
      → (aways api ss t).total_paused_time ≡ t.total_paused_time + off_time ss
  aways-total a b [] t h o small = omega arith
  aways-total a b (s ∷ ss) t h (o1, o2, o) small = omega (
    arith,
    away-total s t h,
    InOrder-lt s.to.ktime ss b o,
    aways-total s.to.ktime b ss (away api s t) (away-IsTimed s t h) o
        (omega (arith, away-total s t h, InOrder-lt s.to.ktime ss b o)),
  )

  pub aways-get_kern_time :
      (ss : List Stay) (t : Data api) → (aways api ss t).get_kern_time ≡ t.get_kern_time
  aways-get_kern_time [] t = refl
  aways-get_kern_time (s ∷ ss) t = aways-get_kern_time ss (away api s t) ∙ away-get_kern_time s t

  pub aways-IsTimed : (ss : List Stay) (t : Data api) → IsTimed t → IsTimed (aways api ss t)
  aways-IsTimed [] t h = h
  aways-IsTimed (s ∷ ss) t h = aways-IsTimed ss (away api s t) (away-IsTimed s t h)

  -- Between GET_TIMER with 0 and GET_TIMER with what that returned, the time reported is the time
  -- from the one to the other, less the time off the processor.
  pub measured_time :
      (begin end : Clock) (ss : List Stay) (t : Data api)
      → IsTimed t
      → 0 < begin.ktime
      → InOrder begin.ktime ss end.ktime
      → let t1 = measure api begin 0 t in
        let t2 = measure api end t1.executed_time (aways api ss t1) in
        t2.executed_time + off_time ss + begin.ktime ≡ end.ktime
  unfolding measure
  measured_time begin end ss t h started o =
      let t1 = measure api begin 0 t in
      let h1 : IsTimed t1 = record { set = h.set; running = h.running } in
      let (fits, small) = InOrder-lt begin.ktime ss end.ktime o in
      let paused : (aways api ss t1).total_paused_time ≡ off_time ss =
        omega (arith, aways-total begin.ktime end.ktime ss t1 h1 o (omega arith)) in
      rw (ne→== begin.ktime 0 (omega arith), paused) (omega arith)
