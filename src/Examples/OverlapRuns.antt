-- ===== src/Examples/OverlapRuns.antt =====
-- Insertions that overlap, into the map of threads 7 and 57.
use ttex_kernel.Common.{
  ℕ, ◌≡◌, refl, none, some, List, [], ◌∷◌, ◌++◌, arith, ok, ok-injective, subst, ◌>>=◌, ℤ, pos,
}
use ttex_kernel.ThreadMap.{
  ThreadMap, get, insert, hash_function, load, create_node, link, last_node, modify, walk,
}
use ttex_kernel.ThreadMap.Chain.{find}
use ttex_kernel.ThreadMap.Refine.{IsMap}
use ttex_kernel.ThreadMap.Insert.{fresh_node, allocated}
use ttex_kernel.ThreadMap.Overlap.{insert_during, insert_find, find_place}
use ttex_kernel.ThreadMap.Attach.{attach}
use ttex_kernel.ThreadMap.Overlap.Lost.{lost_insert}
use ttex_kernel.ThreadMap.Overlap.Apart.{Insertion, insert_all, entries_of, AreApart, insert_apart}
use ttex_kernel.Examples.Demo.{Timers, fresh, two, two_entries, two-IsMap}

-- 107 and 157 share the bucket of 7 and 57.
lost_insert_example :
    (m' : ThreadMap Timers) × (insert_during
        (λ m1. insert m1 400 (pos 157) fresh)
        two
        300
        (pos 107)
        fresh
      ≡ ok m')
    × ((l : ℤ) (j : ℕ)
        → hash_function l ≡ pos j
        → get m' l ≡ ok (find l (two_entries ++ ((pos 107, 300) ∷ []))))
    × (find (pos 157) two_entries ≡ none → get m' (pos 157) ≡ ok none)
unfolding hash_function load
lost_insert_example =
    lost_insert two two_entries (pos 107) (pos 157) fresh fresh 300 400 7 two-IsMap refl refl
      (λ e. ground (arith, e)) (omega arith) (omega arith) (omega arith) refl refl

abbrev others : List (Insertion Timers)
others =
    record { fresh = 400; key = pos 8; val = fresh }
    ∷ record { fresh = 500; key = pos 58; val = fresh }
    ∷ []

others-AreApart : AreApart 7 (allocated two 300 (pos 107) fresh) others
unfolding hash_function load insert create_node link
others-AreApart = (
  (8, refl, omega arith),
  omega arith,
  refl,
  λ m' e. (
    (8, refl, omega arith),
    omega arith,
    subst (λ m. load m.nodes 500 ≡ none) (ok-injective e) refl,
    λ m'' e'. tt,
  ),
)

insert_apart_example :
    (m' : ThreadMap Timers) × (insert_during (insert_all others) two 300 (pos 107) fresh ≡ ok m')
    × IsMap m' ((two_entries ++ entries_of others) ++ ((pos 107, 300) ∷ []))
    × (load m'.nodes 300 ≡ some (fresh_node (pos 107) fresh))
unfolding hash_function load
insert_apart_example =
    insert_apart two two_entries (pos 107) fresh 300 7 others two-IsMap refl (omega arith) refl
      others-AreApart

-- Thread 157 is not found, though its node is in the heap.
lost_run :
    (insert_during (λ m1. insert m1 400 (pos 157) fresh) two 300 (pos 107) fresh >>= λ m.
    get m (pos 157))
    ≡ ok none
unfolding hash_function load insert create_node link insert_during insert_find find_place attach
    last_node modify get walk
lost_run = refl
