-- ===== src/ThreadMap/Overlap.antt =====
-- `insert` of ttex_kernel_update.c while other insertions run: the locks of `map_lock` around it are
-- commented out, so that threads on several processors can be in it at the same time.
pub mod Apart
pub mod Lost
use ttex_kernel.Common.{
  ℕ, suc, ◌≡◌, refl, ◌≢◌, inl, inr, Option, none, some, List, [], ◌∷◌, ◌++◌, length, ◌==◌,
  if◌then◌else◌, ℤ, pos, Outcome, ok, fault, out_of_fuel, ◌>>=◌, Bool-cases, get_elem?-lt, ◌<◌,
  ne→==, arith, sym, ◌∙◌,
}
use ttex_kernel.ThreadMap.{
  Ptr, null, ThreadData, ThreadMap, load, hash_function, array_at, create_node, last_node, link,
  insert,
}
use ttex_kernel.ThreadMap.Chain.{Entries, Chain, last_node-Chain}
use ttex_kernel.ThreadMap.Refine.{IsMap, in_bucket, length-in_bucket, hash_function-lt}
use ttex_kernel.ThreadMap.Attach.{attach, place_of}
use ttex_kernel.ThreadMap.Insert.{allocated, allocated-IsMap}

module _ {T : Type 0} where
  -- Where `insert` writes, once the bucket's head is read: there, or to the node where the walk ends.
  unfoldable pub find_place :
      ThreadMap T → (new_node head : Ptr) → Outcome (Ptr × Option Ptr × ThreadMap T)
  find_place m new_node head =
      if head == null
      then ok (new_node, none, m)
      else (last_node (suc (length m.nodes)) m.nodes head >>= λ tail. ok (new_node, some tail, m))

  -- `insert` before its write: the new node, the place of the write, and the map.
  unfoldable pub insert_find :
      ThreadMap T → (fresh : Ptr) → ℤ → ThreadData T → Outcome (Ptr × Option Ptr × ThreadMap T)
  insert_find m fresh key val =
      let index = hash_function key in
      let (new_node, m') = create_node m fresh key val in
      array_at m'.array index >>= λ head. find_place m' new_node head

  -- `insert` with what other threads do to the map right before its write.
  unfoldable pub insert_during :
      (during : ThreadMap T → Outcome (ThreadMap T))
      → ThreadMap T
      → (fresh : Ptr) → ℤ
      → ThreadData T
      → Outcome (ThreadMap T)
  insert_during during m fresh key val = insert_find m fresh key val >>= λ found.
      during found.2 >>= λ m'. ok (attach m' (hash_function key) found.0 found.1)

  by_head :
      (o : Outcome Ptr) (f : Ptr → Outcome (Ptr × Option Ptr × ThreadMap T))
      (g : Ptr → Outcome (ThreadMap T)) (k : Ptr × Option Ptr × ThreadMap T → Outcome (ThreadMap T))
      → ((head : Ptr) → (f head >>= k) ≡ g head)
      → ((o >>= f) >>= k) ≡ (o >>= g)
  by_head (ok head) f g k h = h head
  by_head fault f g k h = refl
  by_head out_of_fuel f g k h = refl

  place-link :
      (m : ThreadMap T) (index : ℤ) (new_node head : Ptr)
      → (find_place m new_node head >>= λ found. ok (attach found.2 index found.0 found.1))
        ≡ link m index new_node head
  unfolding find_place link attach
  place-link m index new_node head = elim (Bool-cases (head == null)) [
    | inl e ↦ rw e refl
    | inr e ↦ rw e (by_head (last_node (suc (length m.nodes)) m.nodes head) _ _ _ (λ tail. refl))
  ]

  -- With nothing between, it is `insert`.
  insert_during-ok :
      (m : ThreadMap T) (fresh : Ptr) (key : ℤ) (val : ThreadData T)
      → insert_during ok m fresh key val ≡ insert m fresh key val
  unfolding insert_during insert_find insert
  insert_during-ok m fresh key val =
      let (new_node, m') = create_node m fresh key val in
      by_head (array_at m'.array (hash_function key)) _ _ _
        (place-link m' (hash_function key) new_node)

  find_place-Chain :
      (m : ThreadMap T) (fresh p : Ptr) (xs : Entries)
      → Chain m.nodes p xs
      → length xs < suc (length m.nodes)
      → find_place m fresh p ≡ ok (fresh, place_of xs, m)
  unfolding find_place
  find_place-Chain m fresh p [] c short = rw c refl
  find_place-Chain m fresh p ((c0, q0) ∷ xs) c short =
      rw (ne→== p null (λ e. c.2 (sym c.1 ∙ e)))
        (rw (last_node-Chain (suc (length m.nodes)) m.nodes p c0 q0 xs c (omega arith)) refl)

  -- The place that `insert` finds, and the map with the new node in its heap.
  pub insert_find-place :
      (m : ThreadMap T) (es : Entries) (k : ℤ) (v : ThreadData T) (fresh : Ptr) (i : ℕ)
      → IsMap m es
      → fresh ≢ null
      → load m.nodes fresh ≡ none
      → hash_function k ≡ pos i
      → insert_find m fresh k v ≡ ok (fresh, place_of (in_bucket i es), allocated m fresh k v)
  unfolding insert_find create_node
  insert_find-place m es k v fresh i is ne unused h =
      let lt = hash_function-lt k i h in
      let (p, e) = get_elem?-lt m.array i (omega (arith, lt, is.buckets)) in
      let is1 : IsMap (allocated m fresh k v) es = allocated-IsMap m es is k v fresh unused in
      rw (ne→== fresh null ne, h, e)
        (find_place-Chain (allocated m fresh k v) fresh p (in_bucket i es) (is1.chains i p e)
          (omega (arith, length-in_bucket i es, is1.bounded)))
