-- ===== src/Driver/Running.antt =====
-- The budget of a thread over its whole run: only the jiffies on the processor count.
use ttex_kernel.Common.{
  ℕ, ◌+◌, ◌-◌, ◌%◌, ◌≤◌, ◌<◌, ◌≡◌, refl, true, some, List, [], ◌∷◌, arith, ◌∙◌, ok, ◌>>=◌,
}
use ttex_kernel.Timer.{TimerApi, IsTimerApi, Copied, add64, u64_mod, u32_mod}
use ttex_kernel.ThreadMap.Chain.{Entries}
use ttex_kernel.ThreadMap.Refine.{IsMap}
use ttex_kernel.ThreadMap.Info.{info_at}
use ttex_kernel.Driver.{Data, State, UpdatedTimer}
use ttex_kernel.Driver.Ioctl.{mod_timer_new}
use ttex_kernel.Driver.Switch.{
  IsTimed, Stay, away, aways, away-IsTimed, aways-IsTimed, away-timer, away-mod_msecs,
}
use ttex_kernel.Driver.Isolation.{Switch, InRange, run_switches, run_switches-replay}
use ttex_kernel.Driver.Trace.{trace, trace_of, replay-aways}
use ttex_kernel.Driver.Timing.{budget_armed}

-- No stay runs backwards in jiffies.
abbrev pub AreForward : List Stay → Type 0
AreForward [] = Unit
AreForward (s ∷ ss) = (s.from.jiffies ≤ s.to.jiffies) × AreForward ss

-- The jiffies off the processor.
abbrev pub off_jiffies : List Stay → ℕ
off_jiffies [] = 0
off_jiffies (s ∷ ss) = (s.to.jiffies - s.from.jiffies) + off_jiffies ss

module _ (api : TimerApi) (laws : IsTimerApi api) where
  open api use {expires, timer_pending}

  pub away-expires :
      (s : Stay) (t : Data api)
      → IsTimed t
      → t.mod_msecs ≡ 0
      → s.from.jiffies ≤ s.to.jiffies
      → (timer_pending (away api s t).thread_timer ≡ true)
        × (expires (away api s t).thread_timer
            ≡ add64 (expires t.thread_timer) (s.to.jiffies - s.from.jiffies))
  away-expires s t h z fw =
      rw (away-timer api laws s t h z, laws.pending_of_mod, laws.expires_of_mod) (refl, omega arith)

  -- Stays push the expiry of a queued timer back by the jiffies that they last.
  aways-expires :
      (ss : List Stay) (t : Data api)
      → IsTimed t
      → t.mod_msecs ≡ 0
      → timer_pending t.thread_timer ≡ true
      → expires t.thread_timer < u64_mod
      → AreForward ss
      → (timer_pending (aways api ss t).thread_timer ≡ true)
        × (expires (aways api ss t).thread_timer ≡ add64 (expires t.thread_timer) (off_jiffies ss))
  aways-expires [] t h z queued small fw = (queued, omega arith)
  aways-expires (s ∷ ss) t h z queued small (fw, fws) =
      let (queued1, e1) = away-expires s t h z fw in
      let (queued2, e2) =
        aways-expires ss (away api s t) (away-IsTimed api laws s t h)
          (away-mod_msecs api laws s t h) queued1 (omega (arith, e1)) fws in
      (queued2, omega (arith, e1, e2))

  -- A thread whose timer is queued for `e`, with no budget pending.
  pub record Queued (t : Data api) (e : ℕ) : Type 0 where
    pub timed : IsTimed t
    pub settled : t.mod_msecs ≡ 0
    pub queued : timer_pending t.thread_timer ≡ true
    pub expiry : expires t.thread_timer ≡ e
    pub small : e < u64_mod

  aways-settled :
      (ss : List Stay) (t : Data api) → IsTimed t → t.mod_msecs ≡ 0 → (aways api ss t).mod_msecs ≡ 0
  aways-settled [] t h z = z
  aways-settled (s ∷ ss) t h z =
      aways-settled ss (away api s t) (away-IsTimed api laws s t h) (away-mod_msecs api laws s t h)

  pub aways-Queued :
      (ss : List Stay) (t : Data api) (e : ℕ)
      → Queued t e
      → AreForward ss
      → Queued (aways api ss t) (add64 e (off_jiffies ss))
  aways-Queued ss t e q fw =
      let (queued, count) =
        aways-expires ss t q.timed q.settled q.queued (omega (arith, q.expiry, q.small)) fw in
      record {
        timed = aways-IsTimed api laws ss t q.timed;
        settled = aways-settled ss t q.timed q.settled;
        queued = queued;
        expiry = count ∙ rw q.expiry refl;
        small = omega arith;
      }

  -- MOD_TIMER_NEW with a budget other than 0 for a timed thread of the map, where `schedule()` is
  -- any switches with ids that have a place in the array and with one stay of the thread off the
  -- processor, and behind the call any such switches with any number of its stays, none of which
  -- runs backwards in jiffies: all succeed, and the thread's timer is queued and expires, modulo 2
  -- ^ 64, the budget's jiffies (of its low 32 bits) and those of the later stays after the first
  -- switch in.
  pub budget_running :
      (d : State api) (es : Entries) (req : Copied UpdatedTimer) (t : Data api)
      (during after : List Switch) (stay : Stay) (stays : List Stay)
      → IsMap d.thread_map es
      → info_at d.thread_map req.content.id ≡ ok (some t)
      → IsTimed t
      → 0 < req.content.time_val
      → InRange during
      → InRange after
      → trace req.content.id during ≡ trace_of (stay ∷ [])
      → trace req.content.id after ≡ trace_of stays
      → AreForward stays
      → (d' : State api) × (t' : Data api) × ((mod_timer_new api
              (λ s. run_switches api s during)
              d
              req
            >>= λ d1. run_switches api d1 after)
          ≡ ok d')
        × (info_at d'.thread_map req.content.id ≡ ok (some t'))
        × (timer_pending t'.thread_timer ≡ true)
        × (expires t'.thread_timer
            ≡ (stay.to.jiffies
                + api.msecs_to_jiffies (req.content.time_val % u32_mod)
                + off_jiffies stays)
              % u64_mod)
  budget_running d es req t during after stay stays is there timed budgeted now later once own fw =
      let k = req.content.id in
      let (d1, t1, e1, g1, queued, count, used, is1, timed1) =
        budget_armed api laws d es req t during stay is there timed budgeted now once in
      let (d2, e2, _, g2) = run_switches-replay api d1 es after k t1 is1 later g1 in
      let (queued2, count2) = aways-expires stays t1 timed1 used queued (omega (arith, count)) fw in
      (
        d2,
        aways api stays t1,
        rw e1 e2,
        g2 ∙ rw (replay-aways api k after stays t1 own),
        queued2,
        omega (arith, count, count2),
      )
