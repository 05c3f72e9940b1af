-- ===== src/ThreadMap/Info.antt =====
-- The data that `get` points to: the map read as a partial function from keys to thread data, and the
-- write through the pointer that `get` returns.
use ttex_kernel.Common.{
  ℕ, zero, suc, ◌≡◌, refl, ◌≢◌, inl, inr, Option, none, some, arith, ◌==◌, if◌then◌else◌, length, ℤ,
  eq_ℤ, Outcome, ok, ne→==, eq_ℤ→eq, Bool-cases, Option-cases, ◌>>=◌, ==→ne, >>=-eq-ok,
}
use ttex_kernel.ThreadMap.{
  Ptr, null, MapNode, ThreadData, Nodes, ThreadMap, load, modify, hash_function, get, walk, deref,
  array_at,
}
use ttex_kernel.ThreadMap.Heap.{load-modify, length-modify}
use ttex_kernel.ThreadMap.Chain.{Entries}
use ttex_kernel.ThreadMap.Refine.{IsMap}

module _ {T : Type 0} where
  abbrev pub set_info : (ThreadData T → ThreadData T) → MapNode T → MapNode T
  set_info f n = record n { info = f n.info }

  -- A write through the pointer to the data of the node at `p`.
  unfoldable pub write_info : ThreadMap T → Ptr → (ThreadData T → ThreadData T) → ThreadMap T
  write_info m p f = record m { nodes = modify (set_info f) m.nodes p }

  -- `temp = get(map, key); if (temp == NULL) { } else { *temp = f(*temp); }`
  unfoldable pub update_found :
      ThreadMap T → ℤ → (ThreadData T → ThreadData T) → Outcome (ThreadMap T)
  update_found m key f = get m key >>= elim [ none ↦ ok m | some p ↦ ok (write_info m p f) ]

  -- The data that the key's pointer leads to, for statements.
  unfoldable pub info_at : ThreadMap T → ℤ → Outcome (Option (ThreadData T))
  info_at m key =
      get m key >>= elim [ none ↦ ok none | some p ↦ (deref m.nodes p >>= λ n. ok (some n.info)) ]

  pub load-write_none :
      (f : ThreadData T → ThreadData T) (mem : Nodes T) (p q : Ptr)
      → load mem q ≡ none
      → load (modify (set_info f) mem p) q ≡ none
  load-write_none f mem p q e = ground (arith, load-modify (set_info f) mem p q)

  pub load-write_some :
      (f : ThreadData T → ThreadData T) (mem : Nodes T) (p q : Ptr) (n : MapNode T)
      → load mem q ≡ some n
      → load (modify (set_info f) mem p) q ≡ some (if p == q then set_info f n else n)
  load-write_some f mem p q n e = ground (arith, load-modify (set_info f) mem p q)

  walk-modify :
      (f : ThreadData T → ThreadData T) (fuel : ℕ) (mem : Nodes T) (p : Ptr) (key : ℤ) (curr : Ptr)
      → walk fuel (modify (set_info f) mem p) key curr ≡ walk fuel mem key curr
  unfolding walk
  walk-modify f zero mem p key curr = refl
  walk-modify f (suc fuel) mem p key curr = elim (Option-cases (load mem curr)) [
    | inl e ↦ rw (load-write_none f mem p curr e, e) (ground arith)
    | inr (n, e) ↦
        let rest = walk-modify f fuel mem p key n.next in
        elim (Bool-cases (curr == null)) [
          | inl z ↦ rw z
          | inr z ↦ elim (Bool-cases (p == curr)) [
            | inl s ↦ rw (load-write_some f mem p curr n e, e, z, s) (rw rest)
            | inr s ↦ rw (load-write_some f mem p curr n e, e, z, s) (rw rest)
          ]
        ]
  ]

  -- A write to the data moves no pointer that `get` returns.
  pub get-write_info :
      (m : ThreadMap T) (p : Ptr) (f : ThreadData T → ThreadData T) (key : ℤ)
      → get (write_info m p f) key ≡ get m key
  unfolding get write_info
  get-write_info m p f key = simp (length-modify, walk-modify)

  -- The node that a walk returns has the key.
  walk-key :
      (fuel : ℕ) (mem : Nodes T) (key : ℤ) (curr q : Ptr)
      → walk fuel mem key curr ≡ ok (some q)
      → (n : MapNode T) × (load mem q ≡ some n) × (n.key ≡ key) × (q ≢ null)
  unfolding walk
  walk-key zero mem key curr q h = cc
  walk-key (suc fuel) mem key curr q h = elim (Bool-cases (curr == null)) [
    | inl z ↦ absurd (ground arith)
    | inr z ↦ elim (Option-cases (load mem curr)) [
      | inl e ↦ absurd (ground arith)
      | inr (n, e) ↦ elim (Bool-cases (eq_ℤ n.key key)) [
        | inl same ↦
            let eq : curr ≡ q = ground arith in
            (n, rw (← eq) e, eq_ℤ→eq _ _ same, rw (← eq) (==→ne curr null z))
        | inr other ↦ walk-key fuel mem key n.next q (ground arith)
      ]
    ]
  ]

  pub get-key :
      (m : ThreadMap T) (key : ℤ) (q : Ptr)
      → get m key ≡ ok (some q)
      → (n : MapNode T) × (load m.nodes q ≡ some n) × (n.key ≡ key) × (q ≢ null)
  unfolding get
  get-key m key q h =
      let (head, e, w) = >>=-eq-ok (array_at m.array (hash_function key)) _ h in
      walk-key (suc (length m.nodes)) m.nodes key head q w

  -- What a write through the pointer of `key` comes to.
  pub record Updated (m : ThreadMap T) (key : ℤ) (t : ThreadData T) (m' : ThreadMap T)
      : Type 0 where
    pub there : info_at m' key ≡ ok (some t)
    pub others : (j : ℤ) → j ≢ key → info_at m' j ≡ info_at m j
    pub keeps : (es : Entries) → IsMap m es → IsMap m' es
    pub same_size : m'.arr_size ≡ m.arr_size

  pub info_at-inv :
      (m : ThreadMap T) (key : ℤ) (t : ThreadData T)
      → info_at m key ≡ ok (some t)
      → (p : Ptr) × (n : MapNode T) × (get m key ≡ ok (some p))
        × (load m.nodes p ≡ some n)
        × (n.info ≡ t)
        × (n.key ≡ key)
        × (p ≢ null)
  unfolding info_at
  info_at-inv m key t h = let (o, g, r) = >>=-eq-ok (get m key) _ h in found o g r
    where
      found :
          (o : Option Ptr)
          → get m key ≡ ok o
          → elim o [ none ↦ ok none | some p ↦ (deref m.nodes p >>= λ n. ok (some n.info)) ]
            ≡ ok (some t)
          → (p : Ptr) × (n : MapNode T) × (get m key ≡ ok (some p))
            × (load m.nodes p ≡ some n)
            × (n.info ≡ t)
            × (n.key ≡ key)
            × (p ≢ null)
      found none g r = cc
      found (some p) g r =
          let (n, l, ek, ne) = get-key m key p g in
          let r' = rw (ne→== p null ne, l) at r in (p, n, g, l, cc, ek, ne)
