-- ===== src/ThreadMap/Attach.antt =====
-- The write with which `insert` puts an allocated node into its bucket: to the array where the bucket
-- is empty, else to the `next` of the bucket's last node.
use ttex_kernel.Common.{
  ℕ, zero, suc, ◌+◌, ◌<◌, ◌≡◌, refl, ◌≢◌, inl, inr, Option, none, some, List, [], ◌∷◌, ◌++◌, arith,
  ◌==◌, length, get_elem?, set, ℤ, pos, subst, ◌∙◌, Bool-cases, get_elem?-set_self,
  get_elem?-set_ne, length-set, length-append, ==→eq, ==→ne, get_elem?-lt, eq_ℤ, eq_ℤ→eq, eq→eq_ℤ,
}
use ttex_kernel.ThreadMap.{
  Ptr, null, MapNode, Nodes, ThreadMap, load, modify, set_next, hash_function, array_set,
  max_threads,
}
use ttex_kernel.ThreadMap.Heap.{load-modify_ne, length-modify}
use ttex_kernel.ThreadMap.Chain.{
  Entries, Chain, AllKeys, last_addr, last-key, Chain-frame, Chain-link,
}
use ttex_kernel.ThreadMap.Refine.{
  in_bucket, used, IsMap, AllKeys-in_bucket, in_bucket-append_eq, in_bucket-append_ne,
  hash_function-lt,
}

-- Where the write goes: to the bucket, or to the last node.
abbrev pub place_of : Entries → Option Ptr
place_of [] = none
place_of ((_, q) ∷ xs) = some (last_addr q xs)

unfoldable pub attach : {T : Type 0} → ThreadMap T → ℤ → Ptr → (tail : Option Ptr) → ThreadMap T
attach m index new_node none = record m {
  array = array_set m.array index new_node;
  arr_size = m.arr_size + 1;
}
attach m index new_node (some tail) = record m { nodes = modify (set_next new_node) m.nodes tail }

-- No entry has the address.
abbrev pub IsNew : Ptr → Entries → Type 0
IsNew p [] = Unit
IsNew p ((_, q) ∷ es) = (q ≢ p) × IsNew p es

-- No bucket has the address.
abbrev pub IsOut : Ptr → Entries → Type 0
IsOut p es = (j : ℕ) → j < max_threads → IsNew p (in_bucket j es)

pub last_addr-IsNew :
    (p : Ptr) (k : ℤ) (q : Ptr) (xs : Entries) → IsNew p ((k, q) ∷ xs) → last_addr q xs ≢ p
last_addr-IsNew p k q [] new = new.0
last_addr-IsNew p k q ((k', q') ∷ xs) new = last_addr-IsNew p k' q' xs new.1

IsNew-append :
    (p : Ptr) (xs : Entries) (k : ℤ) (q : Ptr) → q ≢ p → IsNew p xs → IsNew p (xs ++ ((k, q) ∷ []))
IsNew-append p [] k q ne new = (ne, tt)
IsNew-append p ((j, r) ∷ xs) k q ne new = (new.0, IsNew-append p xs k q ne new.1)

pub IsOut-append :
    (p : Ptr) (es : Entries) (k : ℤ) (q : Ptr) → q ≢ p → IsOut p es → IsOut p (es ++ ((k, q) ∷ []))
IsOut-append p es k q ne out j lt = elim (Bool-cases (eq_ℤ (hash_function k) (pos j))) [
  | inl e ↦
      rw (in_bucket-append_eq j es k q (eq_ℤ→eq _ _ e))
        (IsNew-append p (in_bucket j es) k q ne (out j lt))
  | inr e ↦ rw (in_bucket-append_ne j es k q (λ h. ground (arith, eq→eq_ℤ _ _ h))) (out j lt)
]

module _ {T : Type 0} where
  Chain-IsNew :
      (mem : Nodes T) (p q : Ptr) (xs : Entries) → Chain mem p xs → load mem q ≡ none → IsNew q xs
  Chain-IsNew mem p q [] c l = tt
  Chain-IsNew mem p q ((k, r) ∷ xs) (n, e, nr, lr, ek, c) l =
      (λ same. ground arith, Chain-IsNew mem n.next q xs c l)

  -- An address that is not in use is in no bucket.
  pub unused-IsOut :
      (m : ThreadMap T) (es : Entries) (q : Ptr) → IsMap m es → load m.nodes q ≡ none → IsOut q es
  unused-IsOut m es q is l j lt =
      let (p, e) = get_elem?-lt m.array j (omega (arith, is.buckets)) in
      Chain-IsNew m.nodes p q (in_bucket j es) (is.chains j p e) l

used-set :
    (a : List Ptr) (i : ℕ) (p : Ptr)
    → get_elem? a i ≡ some null
    → p ≢ null
    → used (set a i p) ≡ suc (used a)
unfolding used
used-set [] i p h ne = cc
used-set (q ∷ a) zero p h ne = ground arith
used-set (q ∷ a) (suc i) p h ne = ground (arith, used-set a i p h ne)

module _ {T : Type 0} (m : ThreadMap T) (es : Entries) (is : IsMap m es) (k : ℤ) (fresh : Ptr)
    (new : MapNode T) (i : ℕ) (h : hash_function k ≡ pos i) (ne : fresh ≢ null)
    (there : load m.nodes fresh ≡ some new) (ek : new.key ≡ k) (ez : new.next ≡ null)
    (out : IsOut fresh es) (room : length es < length m.nodes) where
  apart : (j : ℕ) → j ≢ i → hash_function k ≢ pos j
  apart j ne e = ground arith

  outside : IsNew fresh (in_bucket i es)
  outside = out i (hash_function-lt k i h)

  -- The first node of an empty bucket.
  first-chains :
      in_bucket i es ≡ []
      → (j : ℕ) (p : Ptr) → get_elem? (set m.array i fresh) j ≡ some p
      → Chain m.nodes p (in_bucket j (es ++ ((k, fresh) ∷ [])))
  first-chains empty j p e = elim (Bool-cases (j == i)) [
    | inl same ↦
        let ej : j ≡ i = ==→eq j i same in
        let at : get_elem? (set m.array i fresh) i ≡ some fresh =
          get_elem?-set_self m.array i fresh (omega (arith, hash_function-lt k i h, is.buckets)) in
        let ep : p ≡ fresh = ground arith in
        rw (ej, ep, in_bucket-append_eq i es k fresh h, empty) (new, refl, ne, there, ek, ez)
    | inr other ↦
        let nj : j ≢ i = ==→ne j i other in
        rw (in_bucket-append_ne j es k fresh (apart j nj))
          (is.chains j p (ground (arith, get_elem?-set_ne m.array i j fresh)))
  ]

  first-IsMap :
      in_bucket i es ≡ []
      → get_elem? m.array i ≡ some null
      → IsMap (attach m (pos i) fresh none) (es ++ ((k, fresh) ∷ []))
  unfolding attach
  first-IsMap empty e = record {
    buckets = length-set m.array i fresh ∙ is.buckets;
    chains = first-chains empty;
    bounded = omega (arith, length-append es ((k, fresh) ∷ []), room);
    counted = omega (arith, used-set m.array i fresh e ne, is.counted);
  }

  -- The write to the last node of a bucket that holds a list.
  linked-chains :
      (p0 : Ptr) (c0 : ℤ) (q0 : Ptr) (xs : Entries)
      → get_elem? m.array i ≡ some p0
      → in_bucket i es ≡ (c0, q0) ∷ xs
      → (j : ℕ) (p : Ptr) → get_elem? m.array j ≡ some p
      → Chain
          (modify (set_next fresh) m.nodes (last_addr q0 xs))
          p
          (in_bucket j (es ++ ((k, fresh) ∷ [])))
  linked-chains p0 c0 q0 xs e0 eb j p e =
      let c : Chain m.nodes p0 ((c0, q0) ∷ xs) = subst (Chain m.nodes p0) eb (is.chains i p0 e0) in
      elim (Bool-cases (j == i)) [
        | inl same ↦
            let ej : j ≡ i = ==→eq j i same in
            let ep : p ≡ p0 = ground arith in
            rw (ej, ep, in_bucket-append_eq i es k fresh h, eb)
              (subst
                (λ k.
                  Chain (modify (set_next fresh) m.nodes (last_addr q0 xs)) p0
                    (((c0, q0) ∷ xs) ++ ((k, fresh) ∷ [])))
                ek
                (Chain-link m.nodes fresh new ne there ez p0 c0 q0 xs
                  (last_addr-IsNew fresh c0 q0 xs (subst (IsNew fresh) eb outside)) c))
        | inr other ↦
            let nj : j ≢ i = ==→ne j i other in
            let (t, lt, ht) =
              last-key (λ k. hash_function k ≡ pos i) m.nodes p0 c0 q0 xs c
                (subst (AllKeys (λ k. hash_function k ≡ pos i)) eb (AllKeys-in_bucket i es)) in
            rw (in_bucket-append_ne j es k fresh (apart j nj)) (
              Chain-frame (λ k. hash_function k ≡ pos j) m.nodes _
                (λ q n l hq. (
                  n,
                  load-modify_ne (set_next fresh) m.nodes (last_addr q0 xs) q (λ e. ground arith)
                      ∙ l,
                  refl,
                  refl,
                ))
                p (in_bucket j es) (AllKeys-in_bucket j es) (is.chains j p e))
      ]

  linked-IsMap :
      (p0 : Ptr) (c0 : ℤ) (q0 : Ptr) (xs : Entries)
      → get_elem? m.array i ≡ some p0
      → in_bucket i es ≡ (c0, q0) ∷ xs
      → IsMap (attach m (pos i) fresh (some (last_addr q0 xs))) (es ++ ((k, fresh) ∷ []))
  unfolding attach
  linked-IsMap p0 c0 q0 xs e0 eb = record {
    buckets = is.buckets;
    chains = linked-chains p0 c0 q0 xs e0 eb;
    bounded = omega (
      arith,
      length-append es ((k, fresh) ∷ []),
      room,
      length-modify (set_next fresh) m.nodes (last_addr q0 xs),
    );
    counted = is.counted;
  }

  -- A node that is allocated and in no bucket comes to the end of the list.
  pub attach-IsMap :
      IsMap (attach m (pos i) fresh (place_of (in_bucket i es))) (es ++ ((k, fresh) ∷ []))
  attach-IsMap =
      let (p, e) = get_elem?-lt m.array i (omega (arith, hash_function-lt k i h, is.buckets)) in
      by_bucket p e (in_bucket i es) refl
    where
      by_bucket :
          (p : Ptr)
          → get_elem? m.array i ≡ some p
          → (xs : Entries) → in_bucket i es ≡ xs
          → IsMap (attach m (pos i) fresh (place_of xs)) (es ++ ((k, fresh) ∷ []))
      by_bucket p e [] eb = first-IsMap eb (rw (subst (Chain m.nodes p) eb (is.chains i p e)) at e)
      by_bucket p e ((c0, q0) ∷ xs) eb = linked-IsMap p c0 q0 xs e eb
