-- ===== src/ThreadMap/Lookup.antt =====
-- What an insertion does to the data that keys lead to: the new key, the other keys, and a key that
-- is in the map already.
use ttex_kernel.Common.{
  ℕ, ◌≡◌, refl, ◌≢◌, Option, none, some, [], ◌∷◌, ◌++◌, arith, sym, ◌∙◌, ok, ap, ℤ, pos, negsuc,
  eq_ℤ, eq_ℤ-refl, ne→==, >>=-eq-ok, if◌then◌else◌,
}
use ttex_kernel.ThreadMap.{
  ThreadMap, ThreadData, MapNode, get, hash_function, Ptr, null, load, array_at,
}
use ttex_kernel.ThreadMap.Chain.{Entries, find}
use ttex_kernel.ThreadMap.Refine.{IsMap, get-find}
use ttex_kernel.ThreadMap.Insert.{Inserted}
use ttex_kernel.ThreadMap.Info.{info_at, info_at-inv}

find-append_some :
    (k : ℤ) (es fs : Entries) (p : Ptr) → find k es ≡ some p → find k (es ++ fs) ≡ some p
unfolding find
find-append_some k [] fs p h = cc
find-append_some k ((j, q) ∷ es) fs p h = ground (arith, find-append_some k es fs p)

pub find-append_none :
    (k : ℤ) (es : Entries) (j : ℤ) (p : Ptr)
    → find k es ≡ none
    → find k (es ++ ((j, p) ∷ [])) ≡ (if eq_ℤ j k then some p else none)
unfolding find
find-append_none k [] j p h = refl
find-append_none k ((i, q) ∷ es) j p h = ground (arith, find-append_none k es j p)

module _ {T : Type 0} where
  -- A lookup that does not fault has a key with a place in the array.
  pub get-hash :
      (m : ThreadMap T) (k : ℤ) (o : Option Ptr)
      → get m k ≡ ok o
      → (i : ℕ) × (hash_function k ≡ pos i)
  unfolding get
  get-hash m k o g =
      let (head, a, w) = >>=-eq-ok (array_at m.array (hash_function k)) _ g in
      place (hash_function k) head refl a
    where
      place :
          (h : ℤ) (head : Ptr)
          → hash_function k ≡ h
          → array_at m.array h ≡ ok head
          → (i : ℕ) × (hash_function k ≡ pos i)
      place (pos i) head e a = (i, e)
      place (negsuc i) head e a = cc

  info_at-node :
      (m : ThreadMap T) (k : ℤ) (p : Ptr) (n : MapNode T)
      → get m k ≡ ok (some p)
      → p ≢ null
      → load m.nodes p ≡ some n
      → info_at m k ≡ ok (some n.info)
  unfolding info_at
  info_at-node m k p n g ne l = rw g (rw (ne→== p null ne, l))

  module _ (m : ThreadMap T) (es : Entries) (k : ℤ) (v : ThreadData T) (fresh : Ptr)
      (m' : ThreadMap T) (is : IsMap m es) (ins : Inserted m es k v fresh m') where
    pub info_at-Inserted_new :
        (i : ℕ)
        → hash_function k ≡ pos i
        → fresh ≢ null
        → find k es ≡ none
        → info_at m' k ≡ ok (some v)
    info_at-Inserted_new i h ne absent =
        let (n, l, ek, ev) = ins.node in
        let f : find k (es ++ ((k, fresh) ∷ [])) ≡ some fresh =
          find-append_none k es k fresh absent ∙ rw (eq_ℤ-refl k) in
        info_at-node m' k fresh n (get-find m' _ k i ins.is h ∙ ap ok f) ne l ∙ rw ev

    pub info_at-Inserted_old :
        (j : ℤ) (t : ThreadData T) → info_at m j ≡ ok (some t) → info_at m' j ≡ ok (some t)
    info_at-Inserted_old j t h =
        let (p, n, g, l, et, ek, ne) = info_at-inv m j t h in
        let (b, hj) = get-hash m j (some p) g in
        let (n', l', ek', et') = ins.others p n l in
        let f : find j es ≡ some p = some-ok (sym (get-find m es j b is hj) ∙ g) in
        info_at-node m' j p n' (get-find m' _ j b ins.is hj ∙ ap ok (find-append_some j es _ p f))
          ne l'
        ∙ rw (et', et)
      where
        some-ok : {o o' : Option Ptr} → ok o ≡ ok o' → o ≡ o'
        some-ok e = cc
