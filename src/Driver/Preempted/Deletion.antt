-- ===== src/Driver/Preempted/Deletion.antt =====
-- DEL_TIMER of ttex_kernel_update.c preempted between its two statements on the thread's data: the
-- timer is deleted, and `timer_set` is still 1.
use ttex_kernel.Common.{
  ◌≡◌, refl, true, false, inl, inr, none, some, List, ◌∷◌, arith, ◌>>=◌, Outcome, ok, if◌then◌else◌,
  ◌∙◌, ◌<◌, ℤ, eq_ℤ, Bool-cases, found-cases,
}
use ttex_kernel.Timer.{TimerApi, IsTimerApi, Copied, add64, u64_mod}
use ttex_kernel.ThreadMap.{get}
use ttex_kernel.ThreadMap.Chain.{Entries}
use ttex_kernel.ThreadMap.Refine.{IsMap}
use ttex_kernel.ThreadMap.Info.{info_at, write_info, update_found}
use ttex_kernel.ThreadMap.Write.{write_info-found, write_info-write_info}
use ttex_kernel.Driver.{Data, State}
use ttex_kernel.Driver.Ioctl.{stopped, del_timer}
use ttex_kernel.Driver.Switch.{IsTimed, Stay, away, aways, away-IsTimed, away-mod_msecs}
use ttex_kernel.Driver.Isolation.{Switch, InRange, run_switches, run_switches-replay}
use ttex_kernel.Driver.Trace.{trace, trace_of, replay-aways}
use ttex_kernel.Driver.Running.{AreForward, off_jiffies, away-expires, aways-Queued}
use ttex_kernel.Driver.Restart.{replay_unset}
use ttex_kernel.Driver.Preempted.{preempted-found}

module _ (api : TimerApi) where
  open api use {del_timer as del, expires, timer_pending}

  -- The first statement.
  abbrev pub unqueued : Data api → Data api
  unqueued t = record t { thread_timer = del t.thread_timer }

  -- The second.
  abbrev pub unset : Data api → Data api
  unset t = record t { timer_set = false }

  -- `preempt` is what happens between the statements. The pointer is that of before.
  unfoldable pub delete_preempted :
      (preempt : State api → Outcome (State api)) → State api → ℤ → Outcome (State api)
  delete_preempted preempt d k = get d.thread_map k >>= elim [
    | none ↦ ok d
    | some p ↦ preempt (record d { thread_map = write_info d.thread_map p unqueued }) >>= λ d1.
        ok (record d1 { thread_map = write_info d1.thread_map p unset })
  ]

  unfoldable pub del_timer_preempted :
      (preempt : State api → Outcome (State api)) → State api → Copied ℤ → Outcome (State api)
  del_timer_preempted preempt d id =
      let d' = record d { value = id.content } in
      let d'' = if eq_ℤ d'.testing_id d'.value then record d' { test_check = false } else d' in
      delete_preempted preempt d'' d''.value

  delete_unpreempted :
      (d : State api) (k : ℤ)
      → delete_preempted ok d k
        ≡ (update_found d.thread_map k (stopped api) >>= λ m. ok (record d { thread_map = m }))
  unfolding delete_preempted update_found
  delete_unpreempted d k = elim (found-cases (get d.thread_map k)) [
    | inl e ↦ rw e refl
    | inr (inl e) ↦ rw e refl
    | inr (inr (inl e)) ↦ rw e refl
    | inr (inr (inr (p, e))) ↦ rw e (rw (write_info-write_info d.thread_map p unset unqueued) refl)
  ]

  -- Where nothing happens between them, they are DEL_TIMER.
  del_timer_unpreempted :
      (d : State api) (id : Copied ℤ) → del_timer_preempted ok d id ≡ del_timer api d id
  unfolding del_timer del_timer_preempted
  del_timer_unpreempted d id = delete_unpreempted _ _

module _ (api : TimerApi) (laws : IsTimerApi api) where
  open api use {expires, timer_pending}

  -- Stays behind the deletion queue the timer again.
  requeued :
      (t : Data api) (stay : Stay) (stays : List Stay)
      → IsTimed t
      → t.mod_msecs ≡ 0
      → expires t.thread_timer < u64_mod
      → AreForward (stay ∷ stays)
      → (timer_pending (aways api (stay ∷ stays) (unqueued api t)).thread_timer ≡ true)
        × (expires (aways api (stay ∷ stays) (unqueued api t)).thread_timer
            ≡ add64 (expires t.thread_timer) (off_jiffies (stay ∷ stays)))
  requeued t stay stays timed z small (fw, fws) =
      let t1 = unqueued api t in
      let timed1 : IsTimed t1 = record { set = timed.set; running = timed.running } in
      let (queued, e) = away-expires api laws stay t1 timed1 z fw in
      let q =
        aways-Queued api laws stays (away api stay t1) _
          (record {
            timed = away-IsTimed api laws stay t1 timed1;
            settled = away-mod_msecs api laws stay t1 timed1;
            queued = queued;
            expiry = e;
            small = omega arith;
          })
          fws in
      (q.queued, q.expiry ∙ rw (laws.expires_of_del t.thread_timer) (omega arith))

  delete_requeued :
      (d : State api) (es : Entries) (k : ℤ) (t : Data api) (ss after : List Switch) (stay : Stay)
      (stays : List Stay)
      → IsMap d.thread_map es
      → info_at d.thread_map k ≡ ok (some t)
      → InRange ss
      → InRange after
      → trace k ss ≡ trace_of (stay ∷ stays)
      → (d' : State api) × ((delete_preempted api (λ s. run_switches api s ss) d k >>= λ d1.
            run_switches api d1 after)
          ≡ ok d')
        × (info_at d'.thread_map k
            ≡ ok (some (unset api (aways api (stay ∷ stays) (unqueued api t)))))
  unfolding delete_preempted
  delete_requeued d es k t ss after stay stays is there range range' own =
      let (p, d1, g, e1, is1, there1, g1) =
        preempted-found api d es k t (unqueued api) ss is there range in
      let left_set : Data api = unset api (aways api (stay ∷ stays) (unqueued api t)) in
      let left : info_at d1.thread_map k ≡ ok (some (aways api (stay ∷ stays) (unqueued api t))) =
        there1 ∙ rw (replay-aways api k ss (stay ∷ stays) (unqueued api t) own) refl in
      let (up, _) = write_info-found d1.thread_map k (unset api) _ p left g1 in
      let (d2, e2, _, there2) =
        run_switches-replay api (record d1 { thread_map = write_info d1.thread_map p (unset api) })
          es after k _ (up.keeps es is1) range' up.there in
      (d2, rw g (rw e1 e2), there2 ∙ rw (replay_unset api laws k after left_set refl) refl)

  -- DEL_TIMER of a timed thread of the map without a pending budget, whose timer has a 64-bit
  -- expiry: when it is preempted between `del_timer` and the reset of `timer_set` by any switches
  -- with ids that have a place in the array, among them one or more stays of the thread off the
  -- processor, none backwards in jiffies, and no other switch of it, then the command and any such
  -- switches behind it (whatever they are of the thread) succeed, and at the end `timer_set` is 0
  -- but the timer is queued, for its old expiry put back by the stays, modulo 2 ^ 64.
  pub deleted_requeued :
      (d : State api) (es : Entries) (id : Copied ℤ) (t : Data api) (ss after : List Switch)
      (stay : Stay) (stays : List Stay)
      → IsMap d.thread_map es
      → info_at d.thread_map id.content ≡ ok (some t)
      → IsTimed t
      → t.mod_msecs ≡ 0
      → expires t.thread_timer < u64_mod
      → InRange ss
      → InRange after
      → trace id.content ss ≡ trace_of (stay ∷ stays)
      → AreForward (stay ∷ stays)
      → (d' : State api) × (t' : Data api) × ((del_timer_preempted api
              (λ s. run_switches api s ss)
              d
              id
            >>= λ d1. run_switches api d1 after)
          ≡ ok d')
        × (info_at d'.thread_map id.content ≡ ok (some t'))
        × (t'.timer_set ≡ false)
        × (timer_pending t'.thread_timer ≡ true)
        × (expires t'.thread_timer ≡ add64 (expires t.thread_timer) (off_jiffies (stay ∷ stays)))
  unfolding del_timer_preempted
  deleted_requeued d es id t ss after stay stays is there timed z small range range' own fw =
      let k = id.content in
      let (queued, e) = requeued t stay stays timed z small fw in
      elim (Bool-cases (eq_ℤ d.testing_id k)) [
        | inl same ↦
            let (d', ran, there') =
              delete_requeued (record d { value = k; test_check = false }) es k t ss after stay
                stays is there range range' own in
            (d', _, rw same ran, there', refl, queued, e)
        | inr other ↦
            let (d', ran, there') =
              delete_requeued (record d { value = k }) es k t ss after stay stays is there range
                range' own in
            (d', _, rw other ran, there', refl, queued, e)
      ]
