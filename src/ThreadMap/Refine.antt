-- ===== src/ThreadMap/Refine.antt =====
-- The hash map and the association list, in the order of insertion, that it stands for: the list
-- forgets the buckets.
use ttex_kernel.Common.{
  ℕ, suc, ◌<◌, ◌≤◌, ◌≡◌, refl, ◌≢◌, inl, inr, some, List, [], ◌∷◌, ◌++◌, arith, ◌==◌, if◌then◌else◌,
  length, get_elem?, ℤ, pos, eq_ℤ, ok, ◌∙◌, eq_ℤ→eq, Bool-cases, get_elem?-lt, eq→eq_ℤ,
}
use ttex_kernel.ThreadMap.{Ptr, null, ThreadMap, max_threads, hash_function, get}
use ttex_kernel.ThreadMap.Chain.{Entries, find, Chain, AllKeys, walk-find}

-- The entries whose keys hash to the bucket.
unfoldable pub in_bucket : ℕ → Entries → Entries
in_bucket i [] = []
in_bucket i ((k, p) ∷ es) =
    if eq_ℤ (hash_function k) (pos i) then (k, p) ∷ in_bucket i es else in_bucket i es

-- The buckets that hold a list.
unfoldable pub used : List Ptr → ℕ
used [] = 0
used (p ∷ a) = if p == null then used a else suc (used a)

-- The map stands for the entries.
pub record IsMap {T : Type 0} (m : ThreadMap T) (es : Entries) : Type 0 where
  pub buckets : length m.array ≡ max_threads
  pub chains : (i : ℕ) (p : Ptr) → get_elem? m.array i ≡ some p → Chain m.nodes p (in_bucket i es)
  pub bounded : length es ≤ length m.nodes
  pub counted : m.arr_size ≡ used m.array

pub AllKeys-in_bucket :
    (i : ℕ) (es : Entries) → AllKeys (λ k. hash_function k ≡ pos i) (in_bucket i es)
unfolding in_bucket
AllKeys-in_bucket i [] = tt
AllKeys-in_bucket i ((k, p) ∷ es) = elim (Bool-cases (eq_ℤ (hash_function k) (pos i))) [
  | inl e ↦ rw e (eq_ℤ→eq _ _ e, AllKeys-in_bucket i es)
  | inr e ↦ rw e (AllKeys-in_bucket i es)
]

pub length-in_bucket : (i : ℕ) (es : Entries) → length (in_bucket i es) ≤ length es
unfolding in_bucket
length-in_bucket i [] = omega arith
length-in_bucket i ((k, p) ∷ es) = ground (arith, length-in_bucket i es)

-- A lookup in the bucket of the key is a lookup in the whole list.
pub find-in_bucket :
    (i : ℕ) (k : ℤ) (es : Entries) → hash_function k ≡ pos i → find k (in_bucket i es) ≡ find k es
unfolding find in_bucket
find-in_bucket i k [] h = refl
find-in_bucket i k ((j, p) ∷ es) h =
    ground (arith, find-in_bucket i k es h, eq_ℤ→eq j k, eq→eq_ℤ (hash_function j) (pos i))

pub in_bucket-append_eq :
    (i : ℕ) (es : Entries) (k : ℤ) (p : Ptr)
    → hash_function k ≡ pos i
    → in_bucket i (es ++ ((k, p) ∷ [])) ≡ in_bucket i es ++ ((k, p) ∷ [])
unfolding in_bucket
in_bucket-append_eq i [] k p h = ground (arith, eq→eq_ℤ (hash_function k) (pos i))
in_bucket-append_eq i ((j, q) ∷ es) k p h = ground (arith, in_bucket-append_eq i es k p h)

pub in_bucket-append_ne :
    (i : ℕ) (es : Entries) (k : ℤ) (p : Ptr)
    → hash_function k ≢ pos i
    → in_bucket i (es ++ ((k, p) ∷ [])) ≡ in_bucket i es
unfolding in_bucket
in_bucket-append_ne i [] k p h = ground (arith, eq_ℤ→eq (hash_function k) (pos i))
in_bucket-append_ne i ((j, q) ∷ es) k p h = ground (arith, in_bucket-append_ne i es k p h)

pub hash_function-lt : (k : ℤ) (i : ℕ) → hash_function k ≡ pos i → i < max_threads
unfolding hash_function
hash_function-lt k i h = ground arith

module _ {T : Type 0} where
  -- On a map that stands for a list of entries, `get` of a key that has a place in the array
  -- succeeds and returns the address of the first entry of the key, or `NULL` where there is none.
  pub get-find :
      (m : ThreadMap T) (es : Entries) (k : ℤ) (i : ℕ)
      → IsMap m es
      → hash_function k ≡ pos i
      → get m k ≡ ok (find k es)
  unfolding get
  get-find m es k i is h =
      let (p, e) = get_elem?-lt m.array i (omega (arith, hash_function-lt k i h, is.buckets)) in
      rw (h, e)
        (walk-find (suc (length m.nodes)) m.nodes k p (in_bucket i es) (is.chains i p e)
            (omega (arith, length-in_bucket i es, is.bounded))
          ∙ rw (find-in_bucket i k es h))
