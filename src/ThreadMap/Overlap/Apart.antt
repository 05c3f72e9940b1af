-- ===== src/ThreadMap/Overlap/Apart.antt =====
-- Insertions into other buckets, of which any number run between an insertion's walk and its write.
use ttex_kernel.Common.{
  ℕ, ◌<◌, ◌≡◌, refl, ◌≢◌, some, none, List, [], ◌∷◌, ◌++◌, arith, length, ℤ, pos, Outcome, ok,
  ◌>>=◌, ◌∙◌, subst, sym, ap, length-append,
}
use mathlib.Core.List.{append_assoc, append-nil}
use ttex_kernel.ThreadMap.{Ptr, null, MapNode, ThreadData, ThreadMap, load, hash_function, insert}
use ttex_kernel.ThreadMap.Heap.{load-cons_self}
use ttex_kernel.ThreadMap.Chain.{Entries}
use ttex_kernel.ThreadMap.Refine.{IsMap, in_bucket, in_bucket-append_ne, hash_function-lt}
use ttex_kernel.ThreadMap.Attach.{place_of, attach, attach-IsMap, unused-IsOut, IsOut, IsOut-append}
use ttex_kernel.ThreadMap.Insert.{
  allocated, allocated-IsMap, fresh_node, insert-Inserted, Inserted, attach-unlinked,
}
use ttex_kernel.ThreadMap.Overlap.{insert_during, insert_find-place}

-- What a caller of `insert` brings, with the address that `kmalloc` gives it.
pub record Insertion (T : Type 0) : Type 0 where
  pub fresh : Ptr
  pub key : ℤ
  pub val : ThreadData T

module _ {T : Type 0} where
  unfoldable pub insert_all : List (Insertion T) → ThreadMap T → Outcome (ThreadMap T)
  insert_all [] m = ok m
  insert_all (x ∷ xs) m = insert m x.fresh x.key x.val >>= λ m'. insert_all xs m'

  abbrev pub entries_of : List (Insertion T) → Entries
  entries_of [] = []
  entries_of (x ∷ xs) = (x.key, x.fresh) ∷ entries_of xs

  -- Each key has a place in another bucket, and each address is unused when it is given.
  abbrev pub AreApart : ℕ → ThreadMap T → List (Insertion T) → Type 0
  AreApart i m [] = Unit
  AreApart i m (x ∷ xs) =
      ((j : ℕ) × (hash_function x.key ≡ pos j) × (i ≢ j))
      × (x.fresh ≢ null)
      × (load m.nodes x.fresh ≡ none)
      × ((m' : ThreadMap T) → insert m x.fresh x.key x.val ≡ ok m' → AreApart i m' xs)

module _ {T : Type 0} (i : ℕ) (fresh : Ptr) (n : MapNode T) where
  -- A node that is allocated and not yet in its bucket.
  record Waits (m : ThreadMap T) (es : Entries) : Type 0 where
    is : IsMap m es
    there : load m.nodes fresh ≡ some n
    out : IsOut fresh es
    room : length es < length m.nodes

  insert-Waits :
      (m : ThreadMap T) (es : Entries) (x : Insertion T) (m' : ThreadMap T)
      → Waits m es
      → load m.nodes x.fresh ≡ none
      → Inserted m es x.key x.val x.fresh m'
      → Waits m' (es ++ ((x.key, x.fresh) ∷ []))
  insert-Waits m es x m' w un ins = record {
    is = ins.is;
    there = ins.unlinked fresh n w.out w.there;
    out = IsOut-append fresh es x.key x.fresh (λ same. ground (arith, w.there)) w.out;
    room = omega (arith, w.room, ins.size, length-append es ((x.key, x.fresh) ∷ []));
  }

  insert_all-Waits :
      (xs : List (Insertion T)) (m : ThreadMap T) (es : Entries)
      → Waits m es
      → AreApart i m xs
      → (m' : ThreadMap T) × (insert_all xs m ≡ ok m')
        × Waits m' (es ++ entries_of xs)
        × (in_bucket i (es ++ entries_of xs) ≡ in_bucket i es)
  unfolding insert_all
  insert_all-Waits [] m es w a =
      (m, refl, subst (Waits m) (sym (append-nil es)) w, ap (in_bucket i) (append-nil es))
  insert_all-Waits (x ∷ xs) m es w ((j, h, other), ne, un, rest) =
      let es1 = es ++ ((x.key, x.fresh) ∷ []) in
      let (m1, e1, ins) = insert-Inserted m es x.key x.val x.fresh j w.is ne un h in
      let (m2, e2, w2, b2) =
        insert_all-Waits xs m1 es1 (insert-Waits m es x m1 w un ins) (rest m1 e1) in
      let assoc : es1 ++ entries_of xs ≡ es ++ entries_of (x ∷ xs) =
        append_assoc es ((x.key, x.fresh) ∷ []) (entries_of xs) in
      (
        m2,
        rw e1 e2,
        subst (Waits m2) assoc w2,
        ap (in_bucket i) (sym assoc)
            ∙ b2
            ∙ in_bucket-append_ne i es x.key x.fresh (λ same. ground (arith, same, h)),
      )

module _ {T : Type 0} where
  -- A map that stands for entries, a key that has a place in the array, and a fresh address other
  -- than `NULL`: when any insertions of keys with places in other buckets, each at an address that
  -- is unused then and not `NULL`, run between the walk and the write of the key's insertion, all
  -- succeed, the map stands for the entries with those of the others and then the key's at their
  -- end, and the key's node holds the data.
  pub insert_apart :
      (m : ThreadMap T) (es : Entries) (k : ℤ) (v : ThreadData T) (fresh : Ptr) (i : ℕ)
      (xs : List (Insertion T))
      → IsMap m es
      → hash_function k ≡ pos i
      → fresh ≢ null
      → load m.nodes fresh ≡ none
      → AreApart i (allocated m fresh k v) xs
      → (m' : ThreadMap T) × (insert_during (insert_all xs) m fresh k v ≡ ok m')
        × IsMap m' ((es ++ entries_of xs) ++ ((k, fresh) ∷ []))
        × (load m'.nodes fresh ≡ some (fresh_node k v))
  unfolding insert_during
  insert_apart m es k v fresh i xs is h ne un apart =
      let lt = hash_function-lt k i h in
      let m1 = allocated m fresh k v in
      let w1 : Waits i fresh (fresh_node k v) m1 es = record {
        is = allocated-IsMap m es is k v fresh un;
        there = load-cons_self m.nodes fresh _;
        out = unused-IsOut m es fresh is un;
        room = omega (arith, is.bounded);
      } in
      let (m2, e2, w2, b2) = insert_all-Waits i fresh (fresh_node k v) xs m1 es w1 apart in
      let es2 = es ++ entries_of xs in
      (
        attach m2 (pos i) fresh (place_of (in_bucket i es2)),
        rw (insert_find-place m es k v fresh i is ne un h) (rw e2 (rw (h, b2) refl)),
        attach-IsMap m2 es2 w2.is k fresh (fresh_node k v) i h ne w2.there refl refl w2.out w2.room,
        attach-unlinked m2 (pos i) fresh (in_bucket i es2) fresh _ (w2.out i lt) w2.there,
      )
