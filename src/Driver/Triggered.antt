-- ===== src/Driver/Triggered.antt =====
-- `timer_callback` looks for the owner of an expired timer among the ids below `max_threads`.
use ttex_kernel.Common.{
  ℕ, zero, suc, ◌+◌, ◌%◌, ==→ne, ◌<◌, ◌≤◌, ◌≡◌, refl, ◌≢◌, inl, inr, Option, none, some, arith,
  ◌==◌, sym, ◌∙◌, ok, ap, ℤ, pos, ne→==, ==_refl, ==→eq, Bool-cases,
}
use ttex_kernel.ThreadMap.{
  ThreadMap, get, hash_function, Ptr, MapNode, load, max_threads, ThreadData,
}
use ttex_kernel.ThreadMap.Chain.{Entries, find}
use ttex_kernel.ThreadMap.Refine.{IsMap, get-find}
use ttex_kernel.ThreadMap.Info.{info_at, write_info, get-write_info, get-key, Updated}
use ttex_kernel.ThreadMap.Write.{write_info-IsMap, write_info-Updated}
use ttex_kernel.Driver.{Driver}
use ttex_kernel.Driver.Expiry.{trigger, callback_round, callback_loop, timer_callback}

pos_ne : (k r : ℕ) (z : ℤ) → z ≡ pos k → k ≢ r → z ≢ pos r
pos_ne k r z e ne h = ground arith

module _ {T : Type 0} where
  -- A round whose key leads to another node writes nothing.
  round_miss :
      (m : ThreadMap T) (fired : Ptr) (i : ℕ) (o : Option Ptr)
      → get m (pos i) ≡ ok o
      → o ≢ some fired
      → callback_round m fired i ≡ ok m
  unfolding callback_round
  round_miss m fired i none g ne = rw g
  round_miss m fired i (some p) g ne = rw (g, ne→== fired p (λ e. ne (ap some (sym e))))

  round_hit :
      (m : ThreadMap T) (fired : Ptr) (i : ℕ)
      → get m (pos i) ≡ ok (some fired)
      → callback_round m fired i ≡ ok (write_info m fired trigger)
  unfolding callback_round
  round_hit m fired i g = rw (g, ==_refl fired)

  lookup :
      (m : ThreadMap T) (es : Entries) (i : ℕ) → IsMap m es → get m (pos i) ≡ ok (find (pos i) es)
  unfolding hash_function
  lookup m es i is = get-find m es (pos i) (i % max_threads) is refl

  other_key :
      (m : ThreadMap T) (es : Entries) (i : ℕ) (fired : Ptr) (node : MapNode T)
      → IsMap m es
      → load m.nodes fired ≡ some node
      → node.key ≢ pos i
      → find (pos i) es ≢ some fired
  other_key m es i fired node is l ne e =
      let (n', l', k', _) = get-key m (pos i) fired (lookup m es i is ∙ ap ok e) in
      let same : node ≡ n' = ground (arith, l, l') in ne (ap (λ (x : MapNode T). x.key) same ∙ k')

  -- The key of the fired node differs from those of the rounds `i` to `i + n - 1`.
  loop_miss :
      (n i : ℕ) (m : ThreadMap T) (es : Entries) (fired : Ptr) (node : MapNode T)
      → IsMap m es
      → load m.nodes fired ≡ some node
      → ((r : ℕ) → i ≤ r → r < i + n → node.key ≢ pos r)
      → callback_loop n i m fired ≡ ok m
  unfolding callback_loop
  loop_miss zero i m es fired node is l away = refl
  loop_miss (suc n) i m es fired node is l away =
      rw
        (round_miss m fired i (find (pos i) es) (lookup m es i is)
          (other_key m es i fired node is l (away i (omega arith) (omega arith))))
        (loop_miss n (suc i) m es fired node is l (λ r lo hi. away r (omega arith) (omega arith)))

  -- The key of the fired node is that of the round `k`.
  loop_hit :
      (n i k : ℕ) (m : ThreadMap T) (es : Entries) (fired : Ptr)
      → IsMap m es
      → get m (pos k) ≡ ok (some fired)
      → i ≤ k
      → k < i + n
      → callback_loop n i m fired ≡ ok (write_info m fired trigger)
  unfolding callback_loop
  loop_hit zero i k m es fired is g lo hi = absurd (omega arith)
  loop_hit (suc n) i k m es fired is g lo hi = elim (Bool-cases (i == k)) [
    | inl e ↦
        let ek : i ≡ k = ==→eq i k e in
        let m' = write_info m fired trigger in
        let (node, l, ke, _) =
          get-key m' (pos k) fired (get-write_info m fired trigger (pos k) ∙ g) in
        rw (round_hit m fired i (rw ek g)) (
          loop_miss n (suc i) m' es fired node (write_info-IsMap m fired trigger es is) l
            (λ r lo' hi'. pos_ne k r node.key ke (omega arith)))
    | inr e ↦
        let (node, l, ke, _) = get-key m (pos k) fired g in
        let ne : k ≢ i = λ z. ==→ne i k e (sym z) in
        rw
          (round_miss m fired i (find (pos i) es) (lookup m es i is)
            (other_key m es i fired node is l (pos_ne k i node.key ke ne)))
          (loop_hit n (suc i) k m es fired is g (omega arith) (omega arith))
  ]

  -- When the timer of a thread of the map whose id is from 0 to 49 expires, `timer_callback` sets
  -- `timer_triggered` in the data of that id, and what every other id leads to stays.
  pub timer_callback-trigger :
      (d : Driver T) (es : Entries) (k : ℕ) (t : ThreadData T)
      → IsMap d.thread_map es
      → info_at d.thread_map (pos k) ≡ ok (some t)
      → k < max_threads
      → (fired : Ptr) × (d' : Driver T) × (get d.thread_map (pos k) ≡ ok (some fired))
        × (timer_callback d fired ≡ ok d')
        × Updated d.thread_map (pos k) (trigger t) d'.thread_map
  unfolding timer_callback
  timer_callback-trigger d es k t is there small =
      let (p, g, up, _) = write_info-Updated d.thread_map (pos k) trigger t there in
      (
        p,
        record d { thread_map = write_info d.thread_map p trigger },
        g,
        rw (loop_hit max_threads 0 k d.thread_map es p is g (omega arith) (omega arith)),
        up,
      )

  -- When the timer of a thread of the map whose id is 50 or more expires, `timer_callback` changes
  -- nothing.
  pub timer_callback_unseen :
      (d : Driver T) (es : Entries) (k : ℕ) (fired : Ptr)
      → IsMap d.thread_map es
      → get d.thread_map (pos k) ≡ ok (some fired)
      → max_threads ≤ k
      → timer_callback d fired ≡ ok d
  unfolding timer_callback
  timer_callback_unseen d es k fired is g large =
      let (node, l, ke, _) = get-key d.thread_map (pos k) fired g in
      rw (
        loop_miss max_threads 0 d.thread_map es fired node is l
          (λ r lo hi. pos_ne k r node.key ke (omega arith)))
