-- ===== src/Driver/Expiry.antt =====
-- `timer_callback`: the kernel runs it with the address of an expired timer, which is embedded in a
-- map node; the address of the node stands for it.
use ttex_kernel.Common.{
  ℕ, zero, suc, true, none, some, ◌==◌, if◌then◌else◌, pos, Outcome, ok, ◌>>=◌,
}
use ttex_kernel.ThreadMap.{Ptr, max_threads, ThreadData, ThreadMap, get}
use ttex_kernel.ThreadMap.Info.{write_info}
use ttex_kernel.Driver.{Driver}

module _ {T : Type 0} where
  abbrev pub trigger : ThreadData T → ThreadData T
  trigger t = record t { timer_triggered = true }

  -- One round: `i` is used as a key.
  unfoldable pub callback_round : ThreadMap T → (fired : Ptr) → ℕ → Outcome (ThreadMap T)
  callback_round m fired i =
      get m (pos i)
      >>= elim [ none ↦ ok m | some p ↦ if fired == p then ok (write_info m p trigger) else ok m ]

  -- `for (i = 0; i < max_threads; i++)`: recursion on the rounds left.
  unfoldable pub callback_loop : ℕ → ℕ → ThreadMap T → (fired : Ptr) → Outcome (ThreadMap T)
  callback_loop zero i m fired = ok m
  callback_loop (suc n) i m fired =
      callback_round m fired i >>= λ m'. callback_loop n (suc i) m' fired

  unfoldable pub timer_callback : Driver T → (fired : Ptr) → Outcome (Driver T)
  timer_callback d fired =
      callback_loop max_threads 0 d.thread_map fired >>= λ m. ok (record d { thread_map = m })
