-- ===== src/Driver/Safety.antt =====
-- The form of the map along ioctl commands, context switches and timer expiries: which requests are
-- valid, and what holds behind each of them.
use ttex_kernel.Common.{
  ℕ, zero, suc, ◌%◌, ◌≡◌, refl, ◌≢◌, inl, inr, Bool, true, false, Option, none, some, ◌==◌, ◌∙◌,
  Outcome, ok, ap, ℤ, pos, eq_ℤ, Bool-cases, Option-cases,
}
use ttex_kernel.Timer.{TimerApi, Clock, Task, Copied}
use ttex_kernel.ThreadMap.{ThreadMap, hash_function, Ptr, null, load, max_threads, ThreadData}
use ttex_kernel.ThreadMap.Chain.{Entries, find}
use ttex_kernel.ThreadMap.Refine.{IsMap, get-find}
use ttex_kernel.ThreadMap.Info.{write_info, update_found}
use ttex_kernel.ThreadMap.Abstract.{HasPlace}
use ttex_kernel.ThreadMap.Write.{
  info_at-some, write_info-IsMap, update_found-Updated, update_found-none,
}
use ttex_kernel.Driver.{
  Driver, Data, State, UpdatedTimer, ReceiveTimer, Request, Reply, no_reply, sent_reply, logged,
}
use ttex_kernel.Driver.Ioctl.{
  flagged, stopped, start_timer, mod_timer, del_timer, mod_timer_new, get_timer, etx_ioctl,
}
use ttex_kernel.Driver.Expiry.{trigger, callback_round, callback_loop, timer_callback}
use ttex_kernel.Driver.Commands.{start_timer-started, mod_timer_new-budget, get_timer-measure}

-- The callers send ids with a place in the array, and `kmalloc` gives unused memory.
abbrev pub IsValid : {T : Type 0} → Driver T → Request T → Type 0
IsValid d (Request.start_timer id temp raw node) =
    HasPlace id.content × (temp ≢ null) × (node ≢ null) × (load d.thread_map.nodes node ≡ none)
IsValid d (Request.mod_timer id) = HasPlace id.content
IsValid d (Request.del_timer id) = HasPlace id.content
IsValid d (Request.mod_timer_new req) = HasPlace req.content.id
IsValid d (Request.get_timer req sent) = HasPlace req.content.id
IsValid d Request.default = Unit

-- The result is no fault, and the map stands for some entries.
abbrev pub Fine : {T : Type 0} → Outcome (Driver T) → Type 0
Fine {T} r = (d' : Driver T) × (es' : Entries) × (r ≡ ok d') × IsMap d'.thread_map es'

sent_reply-ret :
    (failed sent : Bool) (out : Option ReceiveTimer) → (sent_reply failed sent out).ret ≡ pos 0
sent_reply-ret failed sent none = refl
sent_reply-ret failed true (some r) = refl
sent_reply-ret failed false (some r) = refl

module _ {T : Type 0} where
  -- A write through the pointer of a key, if it is found.
  update_found-IsMap :
      (m : ThreadMap T) (es : Entries) (k : ℤ) (f : ThreadData T → ThreadData T)
      → IsMap m es
      → HasPlace k
      → (m' : ThreadMap T) × (update_found m k f ≡ ok m') × IsMap m' es
  update_found-IsMap m es k f is (i, h) = elim (Option-cases (find k es)) [
    | inl e ↦ (m, update_found-none m k f (get-find m es k i is h ∙ ap ok e), is)
    | inr (p, e) ↦
        let (t, there) = info_at-some m k p (get-find m es k i is h ∙ ap ok e) in
        let (m', u, up) = update_found-Updated m k f t there in (m', u, up.keeps es is)
  ]

  callback_round-IsMap :
      (m : ThreadMap T) (es : Entries) (fired : Ptr) (i : ℕ)
      → IsMap m es
      → (m' : ThreadMap T) × (callback_round m fired i ≡ ok m') × IsMap m' es
  unfolding callback_round hash_function
  callback_round-IsMap m es fired i is =
      let g = get-find m es (pos i) (i % max_threads) is refl in
      elim (Option-cases (find (pos i) es)) [
        | inl e ↦ (m, rw (g, e), is)
        | inr (p, e) ↦ elim (Bool-cases (fired == p)) [
          | inl same ↦ (write_info m p trigger, rw (g, e, same), write_info-IsMap m p trigger es is)
          | inr other ↦ (m, rw (g, e, other), is)
        ]
      ]

  callback_loop-IsMap :
      (n i : ℕ) (m : ThreadMap T) (es : Entries) (fired : Ptr)
      → IsMap m es
      → (m' : ThreadMap T) × (callback_loop n i m fired ≡ ok m') × IsMap m' es
  unfolding callback_loop
  callback_loop-IsMap zero i m es fired is = (m, refl, is)
  callback_loop-IsMap (suc n) i m es fired is =
      let (m1, e1, is1) = callback_round-IsMap m es fired i is in
      let (m2, e2, is2) = callback_loop-IsMap n (suc i) m1 es fired is1 in (m2, rw e1 e2, is2)

  pub timer_callback-Fine :
      (d : Driver T) (es : Entries) (fired : Ptr)
      → IsMap d.thread_map es
      → Fine (timer_callback d fired)
  unfolding timer_callback
  timer_callback-Fine d es fired is =
      let (m, e, is') = callback_loop-IsMap max_threads 0 d.thread_map es fired is in
      (record d { thread_map = m }, es, rw e, is')

module _ (api : TimerApi) where
  -- What `schedule()` may do.
  abbrev pub KeepsMap : (State api → Outcome (State api)) → Type 0
  KeepsMap schedule = (d : State api) (es : Entries) → IsMap d.thread_map es → Fine (schedule d)

  start-Fine :
      (schedule : State api → Outcome (State api)) (d : State api) (es : Entries) (task : Task)
      (id : Copied ℤ) (temp node : Ptr) (raw : Data api)
      → IsMap d.thread_map es
      → IsValid d (Request.start_timer id temp raw node)
      → Fine (start_timer api schedule d task id temp raw node)
  start-Fine schedule d es task id temp node raw is ((i, h), nt, nn, unused) =
      let (d', e, _, ins) =
        start_timer-started api schedule d task es id temp node raw i is nt nn unused h in
      (d', _, e, ins.is)

  mod-Fine :
      (d : State api) (es : Entries) (id : Copied ℤ)
      → IsMap d.thread_map es
      → HasPlace id.content
      → Fine (mod_timer api d id)
  unfolding mod_timer
  mod-Fine d es id is place =
      let (m', u, is') = update_found-IsMap d.thread_map es id.content (flagged api) is place in
      (record d { value = id.content; thread_map = m' }, es, rw u, is')

  del-Fine :
      (d : State api) (es : Entries) (id : Copied ℤ)
      → IsMap d.thread_map es
      → HasPlace id.content
      → Fine (del_timer api d id)
  unfolding del_timer
  del-Fine d es id is place =
      let (m', u, is') = update_found-IsMap d.thread_map es id.content (stopped api) is place in
      elim (Bool-cases (eq_ℤ d.testing_id id.content)) [
        | inl e ↦ (
          record d { value = id.content; test_check = false; thread_map = m' },
          es,
          rw e (rw u),
          is',
        )
        | inr e ↦ (record d { value = id.content; thread_map = m' }, es, rw e (rw u), is')
      ]

  new-Fine :
      (schedule : State api → Outcome (State api)) (d : State api) (es : Entries)
      (req : Copied UpdatedTimer)
      → KeepsMap schedule
      → IsMap d.thread_map es
      → HasPlace req.content.id
      → Fine (mod_timer_new api schedule d req)
  new-Fine schedule d es req keep is (i, h) =
      let g = get-find d.thread_map es req.content.id i is h in
      elim (Option-cases (find req.content.id es)) [
        | inl e ↦ (d, es, unfold mod_timer_new in rw (g, e), is)
        | inr (p, e) ↦
            let (t, there) = info_at-some d.thread_map req.content.id p (g ∙ ap ok e) in
            let (m', up, eq) = mod_timer_new-budget api schedule d req t there in
            elim (Bool-cases (req.content.time_val == 0)) [
              | inl z ↦ (record d { thread_map = m' }, es, eq ∙ rw z, up.keeps es is)
              | inr z ↦
                  let (d', es', e', is') =
                    keep (record d { thread_map = m' }) es (up.keeps es is) in
                  (d', es', eq ∙ rw z e', is')
            ]
      ]

  get-Fine :
      (d : State api) (es : Entries) (now : Clock) (req : Copied ReceiveTimer)
      → IsMap d.thread_map es
      → HasPlace req.content.id
      → (d' : State api) × (out : Option ReceiveTimer) × (get_timer api d now req ≡ ok (d', out))
        × IsMap d'.thread_map es
  get-Fine d es now req is (i, h) =
      let g = get-find d.thread_map es req.content.id i is h in
      elim (Option-cases (find req.content.id es)) [
        | inl e ↦ (d, none, unfold get_timer in rw (g, e), is)
        | inr (p, e) ↦
            let (t, there) = info_at-some d.thread_map req.content.id p (g ∙ ap ok e) in
            let (d', e', up) = get_timer-measure api d now req t there in
            (d', _, e', up.keeps es is)
      ]

  -- Every valid command on a map that stands for some entries succeeds, returns 0 and leaves such a
  -- map, if `schedule()` does; failed copies make no difference to this.
  pub etx_ioctl-IsMap :
      (schedule : State api → Outcome (State api)) (d : State api) (es : Entries) (task : Task)
      (now : Clock) (r : Request api.TimerList)
      → KeepsMap schedule
      → IsMap d.thread_map es
      → IsValid d r
      → (d' : State api) × (reply : Reply) × (es' : Entries) × (etx_ioctl api schedule d task now r
          ≡ ok (d', reply))
        × IsMap d'.thread_map es'
        × (reply.ret ≡ pos 0)
  unfolding etx_ioctl
  etx_ioctl-IsMap schedule d es task now (Request.start_timer id temp raw node) keep is v =
      let (d', es', e, is') = start-Fine schedule d es task id temp node raw is v in
      (d', no_reply (logged id.failed), es', rw e, is', refl)
  etx_ioctl-IsMap schedule d es task now (Request.mod_timer id) keep is v =
      let (d', es', e, is') = mod-Fine d es id is v in
      (d', no_reply (logged id.failed), es', rw e, is', refl)
  etx_ioctl-IsMap schedule d es task now (Request.del_timer id) keep is v =
      let (d', es', e, is') = del-Fine d es id is v in
      (d', no_reply (logged id.failed), es', rw e, is', refl)
  etx_ioctl-IsMap schedule d es task now (Request.mod_timer_new req) keep is v =
      let (d', es', e, is') = new-Fine schedule d es req keep is v in
      (d', no_reply (logged req.failed), es', rw e, is', refl)
  etx_ioctl-IsMap schedule d es task now (Request.get_timer req sent) keep is v =
      let (d', out, e, is') = get-Fine d es now req is v in
      (d', sent_reply req.failed sent out, es, rw e, is', sent_reply-ret req.failed sent out)
  etx_ioctl-IsMap schedule d es task now Request.default keep is v =
      (d, no_reply 0, es, refl, is, refl)
