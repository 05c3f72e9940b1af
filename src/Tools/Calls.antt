-- ===== src/Tools/Calls.antt =====
-- The system calls of a thread's life as a list, and what the device makes of their numbers.
use ttex_kernel.Common.{
  ℕ, zero, suc, ◌≡◌, refl, ne→==, ==_refl, some, List, [], ◌∷◌, ◌++◌, ℤ, pos, ok,
}
use ttex_kernel.Driver.{Request}
use ttex_kernel.Device.{
  IoctlApi, Argument, request_of, start_timer_number, del_timer_number, mod_timer_new_number,
}
use ttex_kernel.Tools.{
  Command, start_timer, mod_timer_new, del_timer, Call, ioctl, close, ThreadInfo, setup, my_next_id,
  time_val_msec, thread_begin, ompt_test, thread_end,
}
use ttex_kernel.Tools.Session.{tests, life, AreApart}

-- The calls of the borders, and those of the end.
abbrev pub test_calls : ℤ → ℕ → List (Call Command)
test_calls tid zero = []
test_calls tid (suc n) =
    ioctl (mod_timer_new (record { id = tid; time_val = time_val_msec })) ∷ test_calls tid n

abbrev pub end_calls : ℤ → List (Call Command)
end_calls tid = ioctl (del_timer tid) ∷ close ∷ []

tests-calls :
    (n : ℕ) (info : ThreadInfo) (tid : ℤ) → tests n (some info) tid ≡ ok (test_calls tid n)
unfolding tests ompt_test
tests-calls zero info tid = refl
tests-calls (suc n) info tid = rw (tests-calls n info tid)

abbrev pub life_calls : (next tid : ℤ) → ℕ → List (Call Command)
life_calls next tid n =
    setup next ++ (ioctl (start_timer tid) ∷ (test_calls tid n ++ end_calls tid))

pub life-calls :
    (counter f : ℕ) (tid : ℤ) (n : ℕ)
    → life counter (pos f) tid n ≡ ok (life_calls (my_next_id counter).1 tid n)
unfolding life thread_begin thread_end my_next_id
life-calls counter f tid n = rw (tests-calls n (record { id = tid; fd = pos f }) tid)

module _ (codes : IoctlApi) (apart : AreApart codes) {T : Type 0} (arg : Argument T) where
  pub decodes_start :
      request_of codes (start_timer_number codes) arg
      ≡ Request.start_timer arg.id arg.temp arg.raw arg.node
  unfolding request_of
  decodes_start = rw (==_refl (start_timer_number codes))

  pub decodes_del : request_of codes (del_timer_number codes) arg ≡ Request.del_timer arg.id
  unfolding request_of
  decodes_del =
      rw (ne→== _ _ apart.start_del, ne→== _ _ apart.mod_del, ==_refl (del_timer_number codes))

  pub decodes_new :
      request_of codes (mod_timer_new_number codes) arg ≡ Request.mod_timer_new arg.updated
  unfolding request_of
  decodes_new = rw (
    ne→== _ _ apart.start_new,
    ne→== _ _ apart.mod_new,
    ne→== _ _ apart.del_new,
    ==_refl (mod_timer_new_number codes),
  )
