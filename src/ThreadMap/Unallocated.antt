-- ===== src/ThreadMap/Unallocated.antt =====
-- An insertion for which `kmalloc` gives no node.
use ttex_kernel.Common.{
  ℕ, zero, suc, ◌+◌, ◌<◌, ◌≡◌, refl, inl, inr, Bool, true, false, some, List, [], ◌∷◌, arith, ◌==◌,
  if◌then◌else◌, length, get_elem?, set, ℤ, pos, negsuc, ok, fault, sym, subst, ◌∙◌, Bool-cases,
  get_elem?-lt, ==→eq, ==→ne, ne→==, ap,
}
use ttex_kernel.ThreadMap.{
  Ptr, null, MapNode, ThreadData, ThreadMap, load, modify, set_next, hash_function, get, insert,
  create_node, link,
}
use ttex_kernel.ThreadMap.Heap.{load-modify_ne, load-modify_self, length-modify}
use ttex_kernel.ThreadMap.Chain.{
  Entries, Chain, Keeps, last_addr, last_node-Chain, last-null, Chain-frame,
}
use ttex_kernel.ThreadMap.Refine.{
  in_bucket, IsMap, AllKeys-in_bucket, length-in_bucket, get-find, hash_function-lt,
}

set_self : (a : List Ptr) (i : ℕ) (p : Ptr) → get_elem? a i ≡ some p → set a i p ≡ a
set_self [] i p e = refl
set_self (q ∷ a) zero p e = ground arith
set_self (q ∷ a) (suc i) p e = rw (set_self a i p e)

abbrev is_empty : Entries → Bool
is_empty [] = true
is_empty (e ∷ es) = false

-- The write of `NULL` to the last node's `next`, which is `NULL` already.
relinked : {T : Type 0} → ThreadMap T → Ptr → ThreadMap T
relinked m tail = record m { nodes = modify (set_next null) m.nodes tail }

module _ {T : Type 0} where
  relinked-IsMap :
      (m : ThreadMap T) (es : Entries) (tail : Ptr) (t : MapNode T)
      → IsMap m es
      → load m.nodes tail ≡ some t
      → t.next ≡ null
      → IsMap (relinked m tail) es
  unfolding relinked
  relinked-IsMap m es tail t is l z = record {
    buckets = is.buckets;
    chains = λ i p e.
        Chain-frame (λ k. hash_function k ≡ pos i) m.nodes _ (λ q n l _. keep q n l) p
          (in_bucket i es) (AllKeys-in_bucket i es) (is.chains i p e);
    bounded = omega (arith, is.bounded, length-modify (set_next null) m.nodes tail);
    counted = is.counted;
  }
    where
      keep :
          (q : Ptr) (n : MapNode T)
          → load m.nodes q ≡ some n
          → Keeps n (load (modify (set_next null) m.nodes tail) q)
      keep q n lq = elim (Bool-cases (tail == q)) [
        | inl e ↦
            let eq : tail ≡ q = ==→eq tail q e in
            let en : n ≡ t = ground arith in
            rw eq (
              set_next null n,
              load-modify_self (set_next null) m.nodes q n lq,
              refl,
              sym (ap (λ (x : MapNode T). x.next) en ∙ z),
            )
        | inr e ↦
            (n, load-modify_ne (set_next null) m.nodes tail q (==→ne tail q e) ∙ lq, refl, refl)
      ]

  arr_size-relinked : (m : ThreadMap T) (tail : Ptr) → (relinked m tail).arr_size ≡ m.arr_size
  unfolding relinked
  arr_size-relinked m tail = refl

  pub get_outside : (m : ThreadMap T) (j : ℤ) (b : ℕ) → hash_function j ≡ negsuc b → get m j ≡ fault
  unfolding get
  get_outside m j b e = rw e

  -- The counter of buckets plays no part in a lookup.
  get_counted : (m : ThreadMap T) (j : ℤ) → get (record m { arr_size = m.arr_size + 1 }) j ≡ get m j
  unfolding get
  get_counted m j = refl

  -- The map after an insertion whose `kmalloc` failed.
  unallocated-empty :
      (m : ThreadMap T) (k : ℤ) (v : ThreadData T) (i : ℕ)
      → hash_function k ≡ pos i
      → get_elem? m.array i ≡ some null
      → insert m null k v ≡ ok (record m { arr_size = m.arr_size + 1 })
  unfolding insert link create_node
  unallocated-empty m k v i h e = rw (h, e, set_self m.array i null e)

  unallocated-linked :
      (m : ThreadMap T) (k : ℤ) (v : ThreadData T) (i : ℕ) (p : Ptr) (c0 : ℤ) (q0 : Ptr)
      (xs : Entries)
      → hash_function k ≡ pos i
      → get_elem? m.array i ≡ some p
      → Chain m.nodes p ((c0, q0) ∷ xs)
      → length xs < suc (length m.nodes)
      → insert m null k v ≡ ok (relinked m (last_addr q0 xs))
  unfolding insert link create_node relinked
  unallocated-linked m k v i p c0 q0 xs h e c shorter =
      rw (h, e, ne→== p null (λ z. c.2 (sym c.1 ∙ z)))
        (rw (last_node-Chain (suc (length m.nodes)) m.nodes p c0 q0 xs c shorter))

  -- Where the array is the same, so is a lookup that it sends outside.
  relinked-get :
      (m : ThreadMap T) (es : Entries) (p : Ptr) (c0 : ℤ) (q0 : Ptr) (xs : Entries)
      → IsMap m es
      → Chain m.nodes p ((c0, q0) ∷ xs)
      → (j : ℤ) → get (relinked m (last_addr q0 xs)) j ≡ get m j
  relinked-get m es p c0 q0 xs is c j = by_place (hash_function j) refl
    where
      by_place : (h : ℤ) → hash_function j ≡ h → get (relinked m (last_addr q0 xs)) j ≡ get m j
      by_place (negsuc b) e = get_outside _ j b e ∙ sym (get_outside m j b e)
      by_place (pos b) e =
          let (t, l, z) = last-null m.nodes p c0 q0 xs c in
          get-find (relinked m (last_addr q0 xs)) es j b
            (relinked-IsMap m es (last_addr q0 xs) t is l z) e
          ∙ sym (get-find m es j b is e)

  -- An insertion for which `kmalloc` gives no node, of a key that has a place in the array, into a
  -- map that stands for entries: it succeeds, every lookup stays as it was, and the counter of
  -- buckets grows by one exactly where the bucket of the key is empty.
  insert_of_null :
      (m : ThreadMap T) (es : Entries) (k : ℤ) (v : ThreadData T) (i : ℕ)
      → IsMap m es
      → hash_function k ≡ pos i
      → (m' : ThreadMap T) × (insert m null k v ≡ ok m')
        × ((j : ℤ) → get m' j ≡ get m j)
        × (m'.arr_size ≡ (if is_empty (in_bucket i es) then m.arr_size + 1 else m.arr_size))
  insert_of_null m es k v i is h =
      let (p, e) = get_elem?-lt m.array i (omega (arith, hash_function-lt k i h, is.buckets)) in
      place p e (in_bucket i es) refl
    where
      place :
          (p : Ptr)
          → get_elem? m.array i ≡ some p
          → (xs : Entries) → in_bucket i es ≡ xs
          → (m' : ThreadMap T) × (insert m null k v ≡ ok m')
            × ((j : ℤ) → get m' j ≡ get m j)
            × (m'.arr_size ≡ (if is_empty (in_bucket i es) then m.arr_size + 1 else m.arr_size))
      place p e [] eb =
          let e' : get_elem? m.array i ≡ some null =
            rw (subst (Chain m.nodes p) eb (is.chains i p e)) at e in
          (_, unallocated-empty m k v i h e', get_counted m, rw eb)
      place p e ((c0, q0) ∷ xs) eb =
          let c = subst (Chain m.nodes p) eb (is.chains i p e) in
          (
            relinked m (last_addr q0 xs),
            unallocated-linked m k v i p c0 q0 xs h e c
                (omega (arith, ap length eb, length-in_bucket i es, is.bounded)),
            relinked-get m es p c0 q0 xs is c,
            rw eb (arr_size-relinked m (last_addr q0 xs)),
          )
