-- ===== src/Examples/MapRuns.antt =====
-- The hash map at concrete inputs.
use ttex_kernel.Common.{◌≡◌, refl, none, some, arith, ok, fault, pos, negsuc, set}
use ttex_kernel.ThreadMap.{ThreadMap, get, insert, hash_function, load, walk}
use ttex_kernel.ThreadMap.Chain.{find}
use ttex_kernel.ThreadMap.Refine.{get-find}
use ttex_kernel.ThreadMap.Insert.{Inserted, insert-Inserted}
use ttex_kernel.ThreadMap.Bounds.{new_map, outside_faults, get-new_map_fault}
use ttex_kernel.Examples.Demo.{Timers, fresh, buckets, two, two_entries, two-IsMap}

get-find_example : get two (pos 57) ≡ ok (find (pos 57) two_entries)
unfolding hash_function
get-find_example = get-find two two_entries (pos 57) 7 two-IsMap refl

insert-Inserted_example :
    (m' : ThreadMap Timers) × (insert two 300 (pos 8) fresh ≡ ok m')
    × Inserted two two_entries (pos 8) fresh 300 m'
unfolding hash_function load
insert-Inserted_example =
    insert-Inserted two two_entries (pos 8) fresh 300 8 two-IsMap (omega arith) refl refl

outside_faults_example : (get two (negsuc 3) ≡ fault) × (insert two 300 (negsuc 3) fresh ≡ fault)
outside_faults_example = outside_faults two 300 fresh 3 (omega arith)

get-new_map_fault_example : get {T = Timers} (new_map (set buckets 3 77)) (pos 3) ≡ fault
unfolding hash_function
get-new_map_fault_example =
    get-new_map_fault Timers (set buckets 3 77) (pos 3) 3 77 refl refl (omega arith)

-- Two ids of one bucket are told apart.
found : get two (pos 7) ≡ ok (some 100)
unfolding get walk load hash_function
found = refl

missed : get two (pos 107) ≡ ok none
unfolding get walk load hash_function
missed = refl
