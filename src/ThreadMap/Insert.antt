-- ===== src/ThreadMap/Insert.antt =====
-- `insert` as an operation on the list of entries, with the data of the nodes.
use ttex_kernel.Common.{
  ℕ, suc, ◌<◌, ◌≤◌, ◌≡◌, refl, ◌≢◌, inl, inr, Option, none, some, [], ◌∷◌, ◌++◌, arith, ◌==◌,
  length, get_elem?, ℤ, pos, ok, sym, ◌∙◌, Bool-cases, get_elem?-lt, ==→eq, ==→ne, ne→==,
}
use ttex_kernel.ThreadMap.{
  Ptr, null, MapNode, ThreadData, ThreadMap, load, set_next, hash_function, link, insert,
  max_threads,
}
use ttex_kernel.ThreadMap.Heap.{
  load-modify_ne, load-modify_self, load-modify, load-cons_ne, load-cons_self, length-modify,
}
use ttex_kernel.ThreadMap.Chain.{Entries, Chain, last_addr, last_node-Chain, Chain-frame}
use ttex_kernel.ThreadMap.Refine.{
  in_bucket, IsMap, AllKeys-in_bucket, length-in_bucket, hash_function-lt,
}
use ttex_kernel.ThreadMap.Attach.{
  place_of, attach, IsNew, IsOut, last_addr-IsNew, unused-IsOut, attach-IsMap,
}

-- What an insertion of `val` under `key` at the address `fresh` comes to.
pub record Inserted {T : Type 0} (m : ThreadMap T) (es : Entries) (key : ℤ) (val : ThreadData T)
    (fresh : Ptr) (m' : ThreadMap T) : Type 0 where
  pub is : IsMap m' (es ++ ((key, fresh) ∷ []))
  pub node : (n : MapNode T) × (load m'.nodes fresh ≡ some n) × (n.key ≡ key) × (n.info ≡ val)
  pub others :
      (q : Ptr) (n : MapNode T)
      → load m.nodes q ≡ some n
      → (n' : MapNode T) × (load m'.nodes q ≡ some n') × (n'.key ≡ n.key) × (n'.info ≡ n.info)
  pub unused : (q : Ptr) → fresh ≢ q → load m.nodes q ≡ none → load m'.nodes q ≡ none
  pub unlinked :
      (q : Ptr) (n : MapNode T) → IsOut q es → load m.nodes q ≡ some n → load m'.nodes q ≡ some n
  pub size : length m'.nodes ≡ suc (length m.nodes)

module _ {T : Type 0} (m : ThreadMap T) (index : ℤ) (fresh : Ptr) where
  attach-others :
      (place : Option Ptr) (q : Ptr) (n : MapNode T)
      → load m.nodes q ≡ some n
      → (n' : MapNode T) × (load (attach m index fresh place).nodes q ≡ some n')
        × (n'.key ≡ n.key)
        × (n'.info ≡ n.info)
  unfolding attach
  attach-others none q n l = (n, l, refl, refl)
  attach-others (some tail) q n l = elim (Bool-cases (tail == q)) [
    | inl e ↦
        let eq : tail ≡ q = ==→eq tail q e in
        rw eq (set_next fresh n, load-modify_self (set_next fresh) m.nodes q n l, refl, refl)
    | inr e ↦ (n, load-modify_ne (set_next fresh) m.nodes tail q (==→ne tail q e) ∙ l, refl, refl)
  ]

  attach-unused :
      (place : Option Ptr) (q : Ptr)
      → load m.nodes q ≡ none
      → load (attach m index fresh place).nodes q ≡ none
  unfolding attach
  attach-unused none q l = l
  attach-unused (some tail) q l = ground (arith, load-modify (set_next fresh) m.nodes tail q)

  attach-size : (place : Option Ptr) → length (attach m index fresh place).nodes ≡ length m.nodes
  unfolding attach
  attach-size none = refl
  attach-size (some tail) = length-modify (set_next fresh) m.nodes tail

  pub attach-unlinked :
      (xs : Entries) (q : Ptr) (n : MapNode T)
      → IsNew q xs
      → load m.nodes q ≡ some n
      → load (attach m index fresh (place_of xs)).nodes q ≡ some n
  unfolding attach
  attach-unlinked [] q n new l = l
  attach-unlinked ((c, r) ∷ xs) q n new l =
      load-modify_ne (set_next fresh) m.nodes (last_addr r xs) q (last_addr-IsNew q c r xs new) ∙ l

abbrev pub fresh_node : {T : Type 0} → ℤ → ThreadData T → MapNode T
fresh_node k v = record { key = k; info = v; next = null }

-- The map behind `createNode`: the new node is in the heap, and no bucket leads to it.
abbrev pub allocated : {T : Type 0} → ThreadMap T → Ptr → ℤ → ThreadData T → ThreadMap T
allocated m fresh k v = record m { nodes = (fresh, fresh_node k v) ∷ m.nodes }

module _ {T : Type 0} (m : ThreadMap T) (es : Entries) (is : IsMap m es) (k : ℤ) (v : ThreadData T)
    (fresh : Ptr) (unused : load m.nodes fresh ≡ none) where
  pub load-allocated :
      (q : Ptr) (n : MapNode T)
      → load m.nodes q ≡ some n
      → load (allocated m fresh k v).nodes q ≡ some n
  load-allocated q n l = load-cons_ne m.nodes fresh q _ (λ e. ground arith) ∙ l

  pub allocated-IsMap : IsMap (allocated m fresh k v) es
  allocated-IsMap = record {
    buckets = is.buckets;
    chains = λ j p e.
        Chain-frame (λ k. hash_function k ≡ pos j) m.nodes _
          (λ q n l _. (n, load-allocated q n l, refl, refl)) p (in_bucket j es)
          (AllKeys-in_bucket j es) (is.chains j p e);
    bounded = omega (arith, is.bounded);
    counted = is.counted;
  }

module _ {T : Type 0} (m : ThreadMap T) (es : Entries) (is : IsMap m es) (i : ℕ)
    (lt : i < max_threads) (fresh : Ptr) where
  -- The branch that `insert` takes, and the node where its walk ends.
  pub link-attach :
      (p : Ptr)
      → get_elem? m.array i ≡ some p
      → link m (pos i) fresh p ≡ ok (attach m (pos i) fresh (place_of (in_bucket i es)))
  unfolding link attach
  link-attach p e = by_bucket (in_bucket i es) (is.chains i p e) (length-in_bucket i es)
    where
      by_bucket :
          (xs : Entries)
          → Chain m.nodes p xs
          → length xs ≤ length es
          → link m (pos i) fresh p ≡ ok (attach m (pos i) fresh (place_of xs))
      by_bucket [] c short = rw c refl
      by_bucket ((c0, q0) ∷ xs) c short = rw (ne→== p null (λ e. c.2 (sym c.1 ∙ e))) (
          rw
            (last_node-Chain (suc (length m.nodes)) m.nodes p c0 q0 xs c
              (omega (arith, is.bounded)))
            refl)

module _ {T : Type 0} where
  pub insert-attach :
      (m : ThreadMap T) (es : Entries) (k : ℤ) (v : ThreadData T) (fresh : Ptr) (i : ℕ)
      → IsMap m es
      → fresh ≢ null
      → load m.nodes fresh ≡ none
      → hash_function k ≡ pos i
      → insert m fresh k v
        ≡ ok (attach (allocated m fresh k v) (pos i) fresh (place_of (in_bucket i es)))
  unfolding insert
  insert-attach m es k v fresh i is ne unused h =
      let lt = hash_function-lt k i h in
      let (p, e) = get_elem?-lt m.array i (omega (arith, lt, is.buckets)) in
      rw (ne→== fresh null ne, h, e)
        (link-attach (allocated m fresh k v) es (allocated-IsMap m es is k v fresh unused) i lt
          fresh p e)

  -- On a map that stands for a list of entries, an insertion with a key that has a place in the
  -- array and at a fresh address other than `NULL` succeeds, and the new map stands for the list
  -- with the entry at its end. The new node holds the key and the data, and every other node keeps
  -- its own.
  pub insert-Inserted :
      (m : ThreadMap T) (es : Entries) (k : ℤ) (v : ThreadData T) (fresh : Ptr) (i : ℕ)
      → IsMap m es
      → fresh ≢ null
      → load m.nodes fresh ≡ none
      → hash_function k ≡ pos i
      → (m' : ThreadMap T) × (insert m fresh k v ≡ ok m') × Inserted m es k v fresh m'
  insert-Inserted m es k v fresh i is ne unused h =
      let lt = hash_function-lt k i h in
      let m1 = allocated m fresh k v in
      let is1 : IsMap m1 es = allocated-IsMap m es is k v fresh unused in
      let there : load m1.nodes fresh ≡ some (fresh_node k v) = load-cons_self m.nodes fresh _ in
      let out : IsOut fresh es = unused-IsOut m es fresh is unused in
      let place = place_of (in_bucket i es) in
      (
        attach m1 (pos i) fresh place,
        insert-attach m es k v fresh i is ne unused h,
        record {
          is =
              attach-IsMap m1 es is1 k fresh (fresh_node k v) i h ne there refl refl out
                (omega (arith, is.bounded));
          node = (
            fresh_node k v,
            attach-unlinked m1 (pos i) fresh (in_bucket i es) fresh _ (out i lt) there,
            refl,
            refl,
          );
          others = λ q n l.
              attach-others m1 (pos i) fresh place q n
                (load-allocated m es is k v fresh unused q n l);
          unused = λ q e l.
              attach-unused m1 (pos i) fresh place q (load-cons_ne m.nodes fresh q _ e ∙ l);
          unlinked = λ q n o l.
              attach-unlinked m1 (pos i) fresh (in_bucket i es) q n (o i lt)
                (load-allocated m es is k v fresh unused q n l);
          size = attach-size m1 (pos i) fresh place;
        },
      )
