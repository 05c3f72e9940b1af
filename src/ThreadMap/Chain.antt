-- ===== src/ThreadMap/Chain.antt =====
-- The list of a bucket, as the entries that it stands for: key and address of each node, in order.
use ttex_kernel.Common.{
  ℕ, zero, suc, ◌<◌, ◌≡◌, refl, ◌≢◌, Option, none, some, List, [], ◌∷◌, ◌++◌, arith, if◌then◌else◌,
  length, ℤ, eq_ℤ, ok, sym, subst, ◌∙◌,
}
use ttex_kernel.ThreadMap.{Ptr, null, MapNode, Nodes, load, modify, set_next, last_node, walk}
use ttex_kernel.ThreadMap.Heap.{load-modify_self, load-modify_ne}

abbrev pub Entries : Type 0
Entries = List (ℤ × Ptr)

-- The address of the first entry of the key.
unfoldable pub find : ℤ → Entries → Option Ptr
find k [] = none
find k ((j, p) ∷ es) = if eq_ℤ j k then some p else find k es

module _ {T : Type 0} where
  -- From `p` the `next` pointers lead through the entries to `NULL`.
  abbrev pub Chain : Nodes T → Ptr → Entries → Type 0
  Chain mem p [] = p ≡ null
  Chain mem p ((k, q) ∷ es) =
      (n : MapNode T) × (p ≡ q)
      × (q ≢ null)
      × (load mem q ≡ some n)
      × (n.key ≡ k)
      × Chain mem n.next es

  pub walk-find :
      (fuel : ℕ) (mem : Nodes T) (key : ℤ) (p : Ptr) (es : Entries)
      → Chain mem p es
      → length es < fuel
      → walk fuel mem key p ≡ ok (find key es)
  unfolding walk find
  walk-find zero mem key p es c h = elim h [ ]
  walk-find (suc fuel) mem key p [] c h = ground arith
  walk-find (suc fuel) mem key p ((k, q) ∷ es) (n, e, ne, l, ek, c) h =
      ground (arith, walk-find fuel mem key n.next es c (omega arith))

-- The address of the last entry.
abbrev pub last_addr : Ptr → Entries → Ptr
last_addr q [] = q
last_addr q ((_, r) ∷ es) = last_addr r es

abbrev pub AllKeys {ℓ} : (ℤ → Type ℓ) → Entries → Type ℓ
AllKeys P [] = Unit
AllKeys P ((k, _) ∷ es) = P k × AllKeys P es

-- The entry keeps its key and its successor.
abbrev pub Keeps : {T : Type 0} → MapNode T → Option (MapNode T) → Type 0
Keeps {T} n o = (n' : MapNode T) × (o ≡ some n') × (n'.key ≡ n.key) × (n'.next ≡ n.next)

module _ {T : Type 0} where
  pub last_node-Chain :
      (fuel : ℕ) (mem : Nodes T) (p : Ptr) (k : ℤ) (q : Ptr) (es : Entries)
      → Chain mem p ((k, q) ∷ es)
      → length es < fuel
      → last_node fuel mem p ≡ ok (last_addr q es)
  unfolding last_node
  last_node-Chain zero mem p k q es c h = elim h [ ]
  last_node-Chain (suc fuel) mem p k q [] (n, e, ne, l, ek, c) h = ground arith
  last_node-Chain (suc fuel) mem p k q ((k', q') ∷ es) (n, e, ne, l, ek, c) h =
      ground (arith, last_node-Chain fuel mem n.next k' q' es c (omega arith))

  pub last-null :
      (mem : Nodes T) (p : Ptr) (k : ℤ) (q : Ptr) (es : Entries)
      → Chain mem p ((k, q) ∷ es)
      → (n : MapNode T) × (load mem (last_addr q es) ≡ some n) × (n.next ≡ null)
  last-null mem p k q [] (n, e, ne, l, ek, c) = (n, l, c)
  last-null mem p k q ((k', q') ∷ es) (n, e, ne, l, ek, c) = last-null mem n.next k' q' es c

  -- The last address is that of a node whose key is one of the list's.
  pub last-key {ℓ} :
      (P : ℤ → Type ℓ) (mem : Nodes T) (p : Ptr) (k : ℤ) (q : Ptr) (es : Entries)
      → Chain mem p ((k, q) ∷ es)
      → AllKeys P ((k, q) ∷ es)
      → (n : MapNode T) × (load mem (last_addr q es) ≡ some n) × P n.key
  last-key P mem p k q [] (n, e, ne, l, ek, c) a = (n, l, subst P (sym ek) a.0)
  last-key P mem p k q ((k', q') ∷ es) (n, e, ne, l, ek, c) a = last-key P mem n.next k' q' es c a.1

  -- A list survives a change of the heap that keeps the links of its nodes.
  pub Chain-frame {ℓ} :
      (P : ℤ → Type ℓ) (mem mem' : Nodes T)
      → ((q : Ptr) (n : MapNode T) → load mem q ≡ some n → P n.key → Keeps n (load mem' q))
      → (p : Ptr) (es : Entries) → AllKeys P es
      → Chain mem p es
      → Chain mem' p es
  Chain-frame P mem mem' keep p [] a c = c
  Chain-frame P mem mem' keep p ((k, q) ∷ es) a (n, e, ne, l, ek, c) =
      let (n', l', ek', en') = keep q n l (subst P (sym ek) a.0) in
      (n', e, ne, l', ek' ∙ ek, rw en' (Chain-frame P mem mem' keep n.next es a.1 c))

  -- The write to the last node's `next` appends the new node.
  pub Chain-link :
      (mem : Nodes T) (fresh : Ptr) (new : MapNode T)
      → fresh ≢ null
      → load mem fresh ≡ some new
      → new.next ≡ null
      → (p : Ptr) (k : ℤ) (q : Ptr) (es : Entries) → last_addr q es ≢ fresh
      → Chain mem p ((k, q) ∷ es)
      → Chain
          (modify (set_next fresh) mem (last_addr q es))
          p
          (((k, q) ∷ es) ++ ((new.key, fresh) ∷ []))
  Chain-link mem fresh new ne l z p k q [] apart (n, e, nq, lq, ek, c) = (
    set_next fresh n,
    e,
    nq,
    load-modify_self (set_next fresh) mem q n lq,
    ek,
    (new, refl, ne, load-modify_ne (set_next fresh) mem q fresh apart ∙ l, refl, z),
  )
  Chain-link mem fresh new ne l z p k q ((k', q') ∷ es) apart (n, e, nq, lq, ek, c) =
      let (t, lt, tz) = last-null mem n.next k' q' es c in
      let other : last_addr q' es ≢ q = λ same. ground (arith, c) in
      (
        n,
        e,
        nq,
        load-modify_ne (set_next fresh) mem (last_addr q' es) q other ∙ lq,
        ek,
        Chain-link mem fresh new ne l z n.next k' q' es apart c,
      )
