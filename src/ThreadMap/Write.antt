-- ===== src/ThreadMap/Write.antt =====
-- Writes through the pointer that `get` returns: the data of the key, and that of every other key.
use ttex_kernel.Common.{
  ◌≡◌, refl, ◌≢◌, inl, inr, Option, none, some, arith, ◌==◌, ℤ, pos, Outcome, ok, fault,
  out_of_fuel, ne→==, sym, ◌∙◌, Bool-cases, ◌>>=◌, ap, subst,
}
use ttex_kernel.ThreadMap.{
  Ptr, null, MapNode, ThreadData, ThreadMap, load, modify, hash_function, get, deref,
}
use ttex_kernel.ThreadMap.Heap.{load-modify_ne, load-modify_self, length-modify, modify-modify}
use ttex_kernel.ThreadMap.Chain.{Entries, Chain-frame, Keeps}
use ttex_kernel.ThreadMap.Refine.{in_bucket, IsMap, AllKeys-in_bucket}
use ttex_kernel.ThreadMap.Info.{
  set_info, write_info, update_found, info_at, Updated, info_at-inv, get-write_info, get-key,
  load-write_some,
}

module _ {T : Type 0} where
  pub write_info-IsMap :
      (m : ThreadMap T) (p : Ptr) (f : ThreadData T → ThreadData T) (es : Entries)
      → IsMap m es
      → IsMap (write_info m p f) es
  unfolding write_info
  write_info-IsMap m p f es is = record {
    buckets = is.buckets;
    chains = λ i h e.
        Chain-frame (λ k. hash_function k ≡ pos i) m.nodes (modify (set_info f) m.nodes p)
          (λ q n l _. keep q n l) h (in_bucket i es) (AllKeys-in_bucket i es) (is.chains i h e);
    bounded = omega (arith, is.bounded, length-modify (set_info f) m.nodes p);
    counted = is.counted;
  }
    where
      keep :
          (q : Ptr) (n : MapNode T)
          → load m.nodes q ≡ some n
          → Keeps n (load (modify (set_info f) m.nodes p) q)
      keep q n l = elim (Bool-cases (p == q)) [
        | inl s ↦ (set_info f n, rw (load-write_some f m.nodes p q n l, s), refl, refl)
        | inr s ↦ (n, rw (load-write_some f m.nodes p q n l, s), refl, refl)
      ]

  -- Two writes through one pointer.
  pub write_info-write_info :
      (m : ThreadMap T) (p : Ptr) (f g : ThreadData T → ThreadData T)
      → write_info (write_info m p g) p f ≡ write_info m p (λ t. f (g t))
  unfolding write_info
  write_info-write_info m p f g = rw (modify-modify (set_info f) (set_info g) m.nodes p) refl

  load-write_self :
      (m : ThreadMap T) (p : Ptr) (f : ThreadData T → ThreadData T) (n : MapNode T)
      → load m.nodes p ≡ some n
      → load (write_info m p f).nodes p ≡ some (set_info f n)
  unfolding write_info
  load-write_self m p f n l = load-modify_self (set_info f) m.nodes p n l

  load-write_ne :
      (m : ThreadMap T) (p : Ptr) (f : ThreadData T → ThreadData T) (q : Ptr)
      → p ≢ q
      → load (write_info m p f).nodes q ≡ load m.nodes q
  unfolding write_info
  load-write_ne m p f q ne = load-modify_ne (set_info f) m.nodes p q ne

  arr_size-write_info :
      (m : ThreadMap T) (p : Ptr) (f : ThreadData T → ThreadData T)
      → (write_info m p f).arr_size ≡ m.arr_size
  unfolding write_info
  arr_size-write_info m p f = refl

  info_at-write_self :
      (m : ThreadMap T) (p : Ptr) (f : ThreadData T → ThreadData T) (key : ℤ) (n : MapNode T)
      → get m key ≡ ok (some p)
      → load m.nodes p ≡ some n
      → p ≢ null
      → info_at (write_info m p f) key ≡ ok (some (f n.info))
  unfolding info_at
  info_at-write_self m p f key n g l ne =
      rw (get-write_info m p f key, g) (rw (ne→== p null ne, load-write_self m p f n l))

  info_at-write_ne :
      (m : ThreadMap T) (p : Ptr) (f : ThreadData T → ThreadData T) (key j : ℤ)
      → get m key ≡ ok (some p)
      → j ≢ key
      → info_at (write_info m p f) j ≡ info_at m j
  unfolding info_at
  info_at-write_ne m p f key j g ne = rw (get-write_info m p f j) (same (get m j) refl)
    where
      same :
          (o : Outcome (Option Ptr))
          → get m j ≡ o
          → (o >>= elim [
            | none ↦ ok none
            | some q ↦ (deref (write_info m p f).nodes q >>= λ n. ok (some n.info))
          ])
            ≡ (o >>= elim [ none ↦ ok none | some q ↦ (deref m.nodes q >>= λ n. ok (some n.info)) ])
      same fault h = refl
      same out_of_fuel h = refl
      same (ok none) h = refl
      same (ok (some q)) h =
          let (np, lp, kp, _) = get-key m key p g in
          let (nq, lq, kq, _) = get-key m j q h in
          let apart : p ≢ q = λ e.
            let en : nq ≡ np = ground (arith, lp, lq, e) in
            ne (sym kq ∙ ap (λ (x : MapNode T). x.key) en ∙ kp) in
          rw (load-write_ne m p f q apart)

  -- Where the key is not found nothing is written.
  pub update_found-none :
      (m : ThreadMap T) (key : ℤ) (f : ThreadData T → ThreadData T)
      → get m key ≡ ok none
      → update_found m key f ≡ ok m
  unfolding update_found
  update_found-none m key f g = rw g

  pub info_at-none : (m : ThreadMap T) (key : ℤ) → get m key ≡ ok none → info_at m key ≡ ok none
  unfolding info_at
  info_at-none m key g = rw g

  pub info_at-some :
      (m : ThreadMap T) (key : ℤ) (p : Ptr)
      → get m key ≡ ok (some p)
      → (t : ThreadData T) × (info_at m key ≡ ok (some t))
  unfolding info_at
  info_at-some m key p g =
      let (n, l, ek, ne) = get-key m key p g in (n.info, rw g (rw (ne→== p null ne, l)))

  -- The write through the pointer of a found key, with what a read behind it sees.
  pub write_info-Updated :
      (m : ThreadMap T) (key : ℤ) (f : ThreadData T → ThreadData T) (t : ThreadData T)
      → info_at m key ≡ ok (some t)
      → (p : Ptr) × (get m key ≡ ok (some p))
        × Updated m key (f t) (write_info m p f)
        × ((deref (write_info m p f).nodes p >>= λ n. ok n.info) ≡ ok (f t))
  write_info-Updated m key f t h =
      let (p, n, g, l, et, ek, ne) = info_at-inv m key t h in
      (
        p,
        g,
        record {
          there = info_at-write_self m p f key n g l ne ∙ rw et;
          others = λ j nj. info_at-write_ne m p f key j g nj;
          keeps = write_info-IsMap m p f;
          same_size = arr_size-write_info m p f;
        },
        rw (ne→== p null ne, load-write_self m p f n l) (rw et),
      )

  -- The same for a pointer that an earlier lookup returned.
  pub write_info-found :
      (m : ThreadMap T) (key : ℤ) (f : ThreadData T → ThreadData T) (t : ThreadData T) (p : Ptr)
      → info_at m key ≡ ok (some t)
      → get m key ≡ ok (some p)
      → Updated m key (f t) (write_info m p f)
        × ((deref (write_info m p f).nodes p >>= λ n. ok n.info) ≡ ok (f t))
  write_info-found m key f t p h g =
      let (q, gq, up, r) = write_info-Updated m key f t h in
      let eq : q ≡ p = cc in
      subst
        (λ x.
          Updated m key (f t) (write_info m x f)
          × ((deref (write_info m x f).nodes x >>= λ n. ok n.info) ≡ ok (f t)))
        eq (up, r)

  -- A read through a pointer that a lookup returned.
  pub deref-found :
      (m : ThreadMap T) (key : ℤ) (t : ThreadData T) (p : Ptr)
      → info_at m key ≡ ok (some t)
      → get m key ≡ ok (some p)
      → (n : MapNode T) × (deref m.nodes p ≡ ok n) × (n.info ≡ t)
  deref-found m key t p h g =
      let (q, n, gq, l, et, _, ne) = info_at-inv m key t h in
      let eq : q ≡ p = cc in (n, rw (← eq) (rw (ne→== q null ne, l) refl), et)

  -- A found key has its data replaced, and no other key's data changes.
  pub update_found-Updated :
      (m : ThreadMap T) (key : ℤ) (f : ThreadData T → ThreadData T) (t : ThreadData T)
      → info_at m key ≡ ok (some t)
      → (m' : ThreadMap T) × (update_found m key f ≡ ok m') × Updated m key (f t) m'
  unfolding update_found
  update_found-Updated m key f t h =
      let (p, g, up, _) = write_info-Updated m key f t h in (write_info m p f, rw g, up)
