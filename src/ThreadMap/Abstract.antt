-- ===== src/ThreadMap/Abstract.antt =====
-- The map as a partial function from ids to thread data, and what the operations come to on it.
use mathlib.Core.Option
use ttex_kernel.Common.{
  subst, Option, ◌⊎◌, ℕ, ◌≡◌, refl, ◌≢◌, inl, inr, false, none, some, arith, ◌∷◌, [], ◌++◌, ◌∙◌,
  sym, if◌then◌else◌, ok, ap, ℤ, pos, eq_ℤ, eq_ℤ→eq, eq→eq_ℤ, ok-injective, Bool-cases,
  Option-cases,
}
use ttex_kernel.ThreadMap.{ThreadMap, ThreadData, Ptr, null, get, hash_function}
use ttex_kernel.ThreadMap.Chain.{Entries, find}
use ttex_kernel.ThreadMap.Refine.{IsMap, get-find}
use ttex_kernel.ThreadMap.Insert.{Inserted}
use ttex_kernel.ThreadMap.Info.{info_at, update_found, Updated}
use ttex_kernel.ThreadMap.Write.{
  info_at-some, info_at-none, update_found-Updated, update_found-none,
}
use ttex_kernel.ThreadMap.Lookup.{find-append_none, info_at-Inserted_new, info_at-Inserted_old}

abbrev pub HasPlace : ℤ → Type 0
HasPlace k = (i : ℕ) × (hash_function k ≡ pos i)

abbrev pub Threads : Type 0 → Type 0
Threads T = ℤ → Option (ThreadData T)

other_key : (k j : ℤ) (p : Ptr) → eq_ℤ j k ≡ false → (if eq_ℤ k j then some p else none) ≡ none
other_key k j p e = ground (arith, eq_ℤ→eq k j, eq→eq_ℤ j k)

module _ {T : Type 0} where
  -- A write to the data of a thread that is there.
  abbrev pub update : (ThreadData T → ThreadData T) → ℤ → Threads T → Threads T
  update f k threads j = if eq_ℤ j k then Option.map f (threads j) else threads j

  abbrev pub or_else : ThreadData T → Option (ThreadData T) → ThreadData T
  or_else t none = t
  or_else t (some old) = old

  -- A new thread. One that is there stays as it is.
  abbrev pub add : ℤ → ThreadData T → Threads T → Threads T
  add k t threads j = if eq_ℤ j k then some (or_else t (threads j)) else threads j

  -- The map has the data of each thread whose id has a place in the array.
  pub record Stands (m : ThreadMap T) (es : Entries) (threads : Threads T) : Type 0 where
    pub is : IsMap m es
    pub same : (j : ℤ) → HasPlace j → info_at m j ≡ ok (threads j)

  pub Updated-Stands :
      (m m' : ThreadMap T) (es : Entries) (threads : Threads T) (k : ℤ)
      (f : ThreadData T → ThreadData T) (t : ThreadData T)
      → Stands m es threads
      → HasPlace k
      → info_at m k ≡ ok (some t)
      → Updated m k (f t) m'
      → Stands m' es (update f k threads)
  Updated-Stands m m' es threads k f t st place there up = record {
    is = up.keeps es st.is;
    same = λ j pj. elim (Bool-cases (eq_ℤ j k)) [
      | inl e ↦
          let jk : j ≡ k = eq_ℤ→eq j k e in
          let now : threads j ≡ some t = rw jk (ok-injective (sym (st.same k place) ∙ there)) in
          rw (e, now, jk) up.there
      | inr e ↦ rw e (up.others j (λ z. ground (arith, eq→eq_ℤ j k)) ∙ st.same j pj)
    ];
  }

  pub absent-Stands :
      (m : ThreadMap T) (es : Entries) (threads : Threads T) (k : ℤ)
      (f : ThreadData T → ThreadData T)
      → Stands m es threads
      → threads k ≡ none
      → Stands m es (update f k threads)
  absent-Stands m es threads k f st absent = record {
    is = st.is;
    same = λ j pj. elim (Bool-cases (eq_ℤ j k)) [
      | inl e ↦
          let none_here : threads j ≡ none = rw (eq_ℤ→eq j k e) absent in
          st.same j pj ∙ rw (e, none_here) refl
      | inr e ↦ rw e (st.same j pj)
    ];
  }

  -- A thread is there exactly where its id is found.
  pub thread-cases :
      (m : ThreadMap T) (es : Entries) (threads : Threads T) (k : ℤ)
      → Stands m es threads
      → HasPlace k
      → ((get m k ≡ ok none) × (find k es ≡ none) × (threads k ≡ none))
        ⊎ ((t : ThreadData T) × (p : Ptr) × (get m k ≡ ok (some p))
            × (info_at m k ≡ ok (some t))
            × (threads k ≡ some t))
  thread-cases m es threads k st (i, h) =
      let g = get-find m es k i st.is h in
      elim (Option-cases (find k es)) [
        | inl e ↦
            let g' = g ∙ ap ok e in
            inl (g', e, ok-injective (sym (st.same k (i, h)) ∙ info_at-none m k g'))
        | inr (p, e) ↦
            let (t, there) = info_at-some m k p (g ∙ ap ok e) in
            inr (t, p, g ∙ ap ok e, there, ok-injective (sym (st.same k (i, h)) ∙ there))
      ]

  pub update_found-Stands :
      (m : ThreadMap T) (es : Entries) (threads : Threads T) (k : ℤ)
      (f : ThreadData T → ThreadData T)
      → Stands m es threads
      → HasPlace k
      → (m' : ThreadMap T) × (update_found m k f ≡ ok m') × Stands m' es (update f k threads)
  update_found-Stands m es threads k f st place = elim (thread-cases m es threads k st place) [
    | inl (g, _, absent) ↦ (m, update_found-none m k f g, absent-Stands m es threads k f st absent)
    | inr (t, p, g, there, _) ↦
        let (m', u, up) = update_found-Updated m k f t there in
        (m', u, Updated-Stands m m' es threads k f t st place there up)
  ]

  pub Inserted-Stands :
      (m m' : ThreadMap T) (es : Entries) (threads : Threads T) (k : ℤ) (v : ThreadData T)
      (fresh : Ptr)
      → Stands m es threads
      → fresh ≢ null
      → Inserted m es k v fresh m'
      → Stands m' (es ++ ((k, fresh) ∷ [])) (add k v threads)
  Inserted-Stands m m' es threads k v fresh st ne ins = record {
    is = ins.is;
    same = λ j pj. elim (thread-cases m es threads j st pj) [
      | inr (t, p, g, there, now) ↦
          info_at-Inserted_old m es k v fresh m' st.is ins j t there ∙ ground (arith, now)
      | inl (g, unlisted, absent) ↦ elim (Bool-cases (eq_ℤ j k)) [
        | inl e ↦
            let jk : j ≡ k = eq_ℤ→eq j k e in
            let (i, h) = subst HasPlace jk pj in
            rw (e, absent, jk)
              (info_at-Inserted_new m es k v fresh m' st.is ins i h ne (rw jk at unlisted))
        | inr e ↦
            let (i, h) = pj in
            info_at-none m' j (
              get-find m' _ j i ins.is h
              ∙ ap ok (find-append_none j es k fresh unlisted ∙ other_key k j fresh e))
            ∙ rw (e, absent) refl
      ]
    ];
  }
