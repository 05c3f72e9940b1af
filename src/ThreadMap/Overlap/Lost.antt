-- ===== src/ThreadMap/Overlap/Lost.antt =====
-- Two insertions into one bucket, of which the second runs between the first one's walk and its write.
use ttex_kernel.Common.{
  ℕ, ◌≡◌, refl, ◌≢◌, Option, none, some, [], ◌∷◌, ◌++◌, arith, ℤ, pos, ok, ◌∙◌, ap, set-set,
  eq_ℤ→eq,
}
use ttex_kernel.ThreadMap.{
  Ptr, null, ThreadData, ThreadMap, load, set_next, hash_function, insert, get,
}
use ttex_kernel.ThreadMap.Heap.{load-cons_ne, load-cons_self, modify-modify}
use ttex_kernel.ThreadMap.Chain.{Entries, find}
use ttex_kernel.ThreadMap.Refine.{IsMap, in_bucket, get-find}
use ttex_kernel.ThreadMap.Lookup.{find-append_none}
use ttex_kernel.ThreadMap.Attach.{place_of, attach, attach-IsMap, unused-IsOut}
use ttex_kernel.ThreadMap.Insert.{
  allocated, allocated-IsMap, load-allocated, fresh_node, insert-attach,
}
use ttex_kernel.ThreadMap.Overlap.{insert_during, insert_find-place}

module _ {T : Type 0} where
  -- The second write to one place leaves nothing of the first, but for the count of buckets.
  attach-array :
      (m : ThreadMap T) (i : ℕ) (p q : Ptr) (place : Option Ptr)
      → (attach (attach m (pos i) p place) (pos i) q place).array ≡ (attach m (pos i) q place).array
  unfolding attach
  attach-array m i p q none = set-set m.array i p q
  attach-array m i p q (some tail) = refl

  attach-nodes :
      (m : ThreadMap T) (i : ℕ) (p q : Ptr) (place : Option Ptr)
      → (attach (attach m (pos i) p place) (pos i) q place).nodes ≡ (attach m (pos i) q place).nodes
  unfolding attach
  attach-nodes m i p q none = refl
  attach-nodes m i p q (some tail) = modify-modify (set_next q) (set_next p) m.nodes tail

  get-same :
      (m m' : ThreadMap T) (k : ℤ) → m.array ≡ m'.array → m.nodes ≡ m'.nodes → get m k ≡ get m' k
  unfolding get
  get-same m m' k ea en = rw (ea, en) refl

  -- A map that stands for entries, two different keys of one bucket that has a place in the array,
  -- and two different fresh addresses other than `NULL`: when the second key is inserted between
  -- the walk and the write of the first one's insertion, both insertions succeed, every key with a
  -- place in the array then leads where it leads in the entries with the first key's at their end,
  -- and the second key, where it was new, leads nowhere.
  pub lost_insert :
      (m : ThreadMap T) (es : Entries) (k k' : ℤ) (v v' : ThreadData T) (fresh fresh' : Ptr) (i : ℕ)
      → IsMap m es
      → hash_function k ≡ pos i
      → hash_function k' ≡ pos i
      → k ≢ k'
      → fresh ≢ null
      → fresh' ≢ null
      → fresh ≢ fresh'
      → load m.nodes fresh ≡ none
      → load m.nodes fresh' ≡ none
      → (m' : ThreadMap T) × (insert_during (λ m1. insert m1 fresh' k' v') m fresh k v ≡ ok m')
        × ((l : ℤ) (j : ℕ)
            → hash_function l ≡ pos j
            → get m' l ≡ ok (find l (es ++ ((k, fresh) ∷ []))))
        × (find k' es ≡ none → get m' k' ≡ ok none)
  unfolding insert_during
  lost_insert m es k k' v v' fresh fresh' i is h h' apart ne ne' two un un' =
      let m1 = allocated m fresh k v in
      let m2 = allocated m1 fresh' k' v' in
      let place = place_of (in_bucket i es) in
      let is1 : IsMap m1 es = allocated-IsMap m es is k v fresh un in
      let un1 : load m1.nodes fresh' ≡ none = load-cons_ne m.nodes fresh fresh' _ two ∙ un' in
      let is2 : IsMap m2 es = allocated-IsMap m1 es is1 k' v' fresh' un1 in
      let there : load m2.nodes fresh ≡ some (fresh_node k v) =
        load-allocated m1 es is1 k' v' fresh' un1 fresh _ (load-cons_self m.nodes fresh _) in
      let is' : IsMap (attach m2 (pos i) fresh place) (es ++ ((k, fresh) ∷ [])) =
        attach-IsMap m2 es is2 k fresh (fresh_node k v) i h ne there refl refl
          (unused-IsOut m es fresh is un) (omega (arith, is.bounded)) in
      let found : (l : ℤ) (j : ℕ)
          → hash_function l ≡ pos j
          → get (attach (attach m2 (pos i) fresh' place) (pos i) fresh place) l
            ≡ ok (find l (es ++ ((k, fresh) ∷ []))) =
        λ l j hl.
          get-same _ _ l (attach-array m2 i fresh' fresh place)
            (attach-nodes m2 i fresh' fresh place)
          ∙ get-find (attach m2 (pos i) fresh place) _ l j is' hl in
      (
        attach (attach m2 (pos i) fresh' place) (pos i) fresh place,
        rw (insert_find-place m es k v fresh i is ne un h)
            (rw (insert-attach m1 es k' v' fresh' i is1 ne' un1 h') (rw h refl)),
        found,
        λ absent.
            found k' i h' ∙ ap ok (ground (arith, find-append_none k' es k fresh, eq_ℤ→eq k k')),
      )
