-- ===== src/ThreadMap/Bounds.antt =====
-- Limits of the hash map: keys outside the array, the counter of buckets, and the memory of
-- `thread_map` before anything is written to its array.
use ttex_kernel.Common.{
  ℕ, zero, suc, ◌%◌, ◌<◌, ◌≡◌, refl, ◌≢◌, false, Option, none, some, List, [], ◌∷◌, arith, ◌==◌,
  length, get_elem?, replicate, ℤ, pos, negsuc, ok, fault, sym, ◌∙◌, >>=-eq-ok, of_option,
  get_elem?-lt, ne→==, length-replicate,
}
use ttex_kernel.ThreadMap.{
  Ptr, null, ThreadData, Nodes, ThreadMap, max_threads, load, hash_function, get, insert, array_at,
  walk,
}
use ttex_kernel.ThreadMap.Chain.{Entries, find, Chain}
use ttex_kernel.ThreadMap.Refine.{in_bucket, used, IsMap, find-in_bucket, hash_function-lt}

-- The map that `ttex_kernel_init` allocates: `raw` is what the fresh memory holds, and only
-- `arr_size` is written.
unfoldable pub new_map : {T : Type 0} → (raw : List Ptr) → ThreadMap T
new_map raw = record { array = raw; arr_size = 0; nodes = [] }

used-pos : (a : List Ptr) (i : ℕ) (p : Ptr) → get_elem? a i ≡ some p → p ≢ null → 0 < used a
unfolding used
used-pos [] i p e h = cc
used-pos (q ∷ a) zero p e h = ground arith
used-pos (q ∷ a) (suc i) p e h = ground (arith, used-pos a i p e h)

used-replicate : (n : ℕ) → used (replicate n null) ≡ 0
unfolding used
used-replicate zero = refl
used-replicate (suc n) = ground (arith, used-replicate n)

get_elem?-replicate_eq : (n i : ℕ) (p : Ptr) → get_elem? (replicate n null) i ≡ some p → p ≡ null
get_elem?-replicate_eq zero i p e = cc
get_elem?-replicate_eq (suc n) zero p e = ground arith
get_elem?-replicate_eq (suc n) (suc i) p e = get_elem?-replicate_eq n i p e

of_option-eq-ok {ℓ} : {A : Type ℓ} (o : Option A) (a : A) → of_option o ≡ ok a → o ≡ some a
of_option-eq-ok none a h = cc
of_option-eq-ok (some b) a h = cc

walk-ne_null :
    {T : Type 0} (fuel : ℕ) (mem : Nodes T) (key : ℤ) (p q : Ptr)
    → walk fuel mem key p ≡ ok (some q)
    → p ≢ null
unfolding walk
walk-ne_null zero mem key p q h = cc
walk-ne_null (suc fuel) mem key p q h = ground arith

module _ {T : Type 0} where
  Chain-ne_null :
      (mem : Nodes T) (p : Ptr) (k : ℤ) (es : Entries) (q : Ptr)
      → Chain mem p es
      → find k es ≡ some q
      → p ≢ null
  unfolding find
  Chain-ne_null mem p k [] q c h = cc
  Chain-ne_null mem p k ((j, r) ∷ es) q (n, e, ne, l, ek, c) h = λ z. ne (sym e ∙ z)

  -- The test `thread_map->arr_size != 0` of the handlers passes when the key is there.
  pub arr_size_pos :
      (m : ThreadMap T) (es : Entries) (k : ℤ) (i : ℕ) (q : Ptr)
      → IsMap m es
      → hash_function k ≡ pos i
      → find k es ≡ some q
      → (m.arr_size == 0) ≡ false
  arr_size_pos m es k i q is h f =
      let (p, e) = get_elem?-lt m.array i (omega (arith, hash_function-lt k i h, is.buckets)) in
      let ne =
        Chain-ne_null m.nodes p k (in_bucket i es) q (is.chains i p e)
          (find-in_bucket i k es h ∙ f) in
      ne→== m.arr_size 0 (omega (arith, used-pos m.array i p e ne, is.counted))

  -- A lookup and an insertion of a negative id that is no multiple of 50 access memory outside the
  -- array.
  pub outside_faults :
      (m : ThreadMap T) (fresh : Ptr) (v : ThreadData T) (n : ℕ)
      → suc n % max_threads ≢ 0
      → (get m (negsuc n) ≡ fault) × (insert m fresh (negsuc n) v ≡ fault)
  unfolding get insert hash_function
  outside_faults m fresh v n h = (ground arith, ground arith)

  -- With every bucket `NULL` the new map is the empty list.
  pub new_map-IsMap : IsMap {T = T} (new_map (replicate max_threads null)) []
  unfolding new_map in_bucket
  new_map-IsMap = record {
    buckets = length-replicate max_threads null;
    chains = λ i p e. get_elem?-replicate_eq max_threads i p e;
    bounded = omega arith;
    counted = sym (used-replicate max_threads);
  }

-- In the map as `ttex_kernel_init` leaves it, a lookup whose bucket happens to hold bits other than
-- `NULL` is a bad memory access.
pub get-new_map_fault :
    (T : Type 0) (raw : List Ptr) (k : ℤ) (i : ℕ) (p : Ptr)
    → hash_function k ≡ pos i
    → get_elem? raw i ≡ some p
    → p ≢ null
    → get {T = T} (new_map raw) k ≡ fault
unfolding get new_map walk load
get-new_map_fault T raw k i p h e ne = rw (h, e, ne→== p null ne)

module _ {T : Type 0} where
  -- A lookup that finds its key has seen a bucket in use.
  pub arr_size_of_get :
      (m : ThreadMap T) (es : Entries) (k : ℤ) (q : Ptr)
      → IsMap m es
      → get m k ≡ ok (some q)
      → (m.arr_size == 0) ≡ false
  unfolding get
  arr_size_of_get m es k q is g =
      let (head, a, w) = >>=-eq-ok (array_at m.array (hash_function k)) _ g in
      at_index (hash_function k) head a w
    where
      at_index :
          (index : ℤ) (head : Ptr)
          → array_at m.array index ≡ ok head
          → walk (suc (length m.nodes)) m.nodes k head ≡ ok (some q)
          → (m.arr_size == 0) ≡ false
      at_index (negsuc i) head a w = cc
      at_index (pos i) head a w =
          let ne = walk-ne_null (suc (length m.nodes)) m.nodes k head q w in
          ne→== m.arr_size 0
            (omega (arith, used-pos m.array i head (of_option-eq-ok _ head a) ne, is.counted))
