-- ===== src/Lifecycle/Failure.antt =====
-- What is held when loading succeeds, when it fails, and behind the unloading.
use ttex_kernel.Common.{
  true, false, ◌&&◌, some, List, not, ℤ, pos, ok, ◌≡◌, ◌≢◌, refl, arith, ◌<◌, inl, inr, ap, ◌↔◌,
  Option-cases, subst, ok-injective, sym, ◌∙◌,
}
use ttex_kernel.ThreadMap.{Ptr, ThreadMap}
use ttex_kernel.ThreadMap.Bounds.{new_map}
use ttex_kernel.Lifecycle.{
  Answers, Held, nothing_held, is_negative, setup_kprobe, ttex_kernel_init, ttex_kernel_exit,
}

abbrev pub all_held : Held
all_held = record {
  map_memory = true;
  mutex = true;
  kprobe = true;
  region = true;
  cdev = true;
  dev_class = true;
  device = true;
}

-- Every answer is a success.
pub record Succeeds (a : Answers) : Type 0 where
  pub symbol : a.symbol_found ≡ true
  pub kprobe : is_negative a.register_kprobe ≡ false
  pub region : is_negative a.alloc_chrdev_region ≡ false
  pub cdev : is_negative a.cdev_add ≡ false
  pub dev_class : a.class_error ≡ false
  pub device : a.device_error ≡ false

loaded : (a : Answers) (h : Held) → 0 < a.einval → (setup_kprobe a h).1 ≡ pos 0 → Succeeds a
unfolding setup_kprobe
loaded a h e z = record {
  symbol = ground arith;
  kprobe = ground arith;
  region = ground arith;
  cdev = ground arith;
  dev_class = ground arith;
  device = ground arith;
}

loaded_held :
    (a : Answers) (h : Held)
    → Succeeds a
    → h.mutex ≡ true
    → h.map_memory ≡ true
    → setup_kprobe a h ≡ (all_held, pos 0)
unfolding setup_kprobe
loaded_held a h s m b = ground arith

all_held_only :
    (a : Answers) (h : Held)
    → h.device ≡ false
    → (setup_kprobe a h).0 ≡ all_held
    → (setup_kprobe a h).1 ≡ pos 0
unfolding setup_kprobe
all_held_only a h d e = ground arith

-- The calls behind the allocation of the map leave it held.
keeps_map : (a : Answers) (h : Held) → h.map_memory ≡ true → (setup_kprobe a h).0.map_memory ≡ true
unfolding setup_kprobe
keeps_map a h m = ground arith

only_map :
    (h : Held)
    → h.map_memory ≡ true
    → ttex_kernel_exit h ≡ record nothing_held { map_memory = true }
unfolding ttex_kernel_exit
only_map h m = rw m refl

-- Where the map is allocated and `EINVAL` is not 0, `ttex_kernel_init` runs to its end; it returns
-- 0 exactly when every answer of the kernel is a success, and exactly when the module then holds
-- everything; in every case the module holds the memory of the map, and `ttex_kernel_exit` gives
-- back whatever is held but that memory.
pub init-exit :
    (T : Type 0) (a : Answers) (raw : List Ptr)
    → a.map_memory ≡ some raw
    → 0 < a.einval
    → (h : Held) × (ret : ℤ) × (ttex_kernel_init {T = T} a ≡ ok (new_map raw, h, ret))
      × ((ret ≡ pos 0) ↔ Succeeds a)
      × ((ret ≡ pos 0) ↔ (h ≡ all_held))
      × (h.map_memory ≡ true)
      × (ttex_kernel_exit h ≡ record nothing_held { map_memory = true })
unfolding ttex_kernel_init ttex_kernel_exit
init-exit T a raw e einval =
    let h0 = record nothing_held { mutex = true; map_memory = true } in
    let held : Succeeds a → setup_kprobe a h0 ≡ (all_held, pos 0) =
      λ s. loaded_held a h0 s refl refl in
    (
      (setup_kprobe a h0).0,
      (setup_kprobe a h0).1,
      rw e,
      (loaded a h0 einval, λ s. ap (λ (r : Held × ℤ). r.1) (held s)),
      (λ z. ap (λ (r : Held × ℤ). r.0) (held (loaded a h0 einval z)), all_held_only a h0 refl),
      keeps_map a h0 refl,
      only_map (setup_kprobe a h0).0 (keeps_map a h0 refl),
    )

abbrev Left : Answers → Held → Type 0
Left a h =
    (h.map_memory ≡ true)
    × (h.kprobe ≡ (a.symbol_found && not (is_negative a.register_kprobe)))
    × (h.region ≡ false)
    × (h.dev_class ≡ false)
    × (h.device ≡ false)
    × (h.cdev ≡ (
        a.symbol_found
        && not (is_negative a.register_kprobe)
        && not (is_negative a.alloc_chrdev_region)
        && not (is_negative a.cdev_add)))

failed :
    (a : Answers)
    → (setup_kprobe a (record nothing_held { mutex = true; map_memory = true })).1 ≢ pos 0
    → Left a (setup_kprobe a (record nothing_held { mutex = true; map_memory = true })).0
unfolding setup_kprobe
failed a ne = ground arith

-- When `ttex_kernel_init` returns another value than 0, the memory of the map is held, the region,
-- the class and the device are not, the kprobe is held exactly where its registration had
-- succeeded, and the character device exactly where its addition had.
pub init_failed :
    (T : Type 0) (a : Answers) (m : ThreadMap T) (h : Held) (ret : ℤ)
    → ttex_kernel_init a ≡ ok (m, h, ret)
    → ret ≢ pos 0
    → (h.map_memory ≡ true)
      × (h.kprobe ≡ (a.symbol_found && not (is_negative a.register_kprobe)))
      × (h.region ≡ false)
      × (h.dev_class ≡ false)
      × (h.device ≡ false)
      × (h.cdev ≡ (
          a.symbol_found
          && not (is_negative a.register_kprobe)
          && not (is_negative a.alloc_chrdev_region)
          && not (is_negative a.cdev_add)))
unfolding ttex_kernel_init
init_failed T a m h ret e ne = elim (Option-cases (a.map_memory)) [
  | inl none_e ↦ absurd (ground (arith, e, none_e))
  | inr (raw, some_e) ↦
      let s = setup_kprobe a (record nothing_held { mutex = true; map_memory = true }) in
      let e' : ok (new_map raw, s.0, s.1) ≡ ok (m, h, ret) = rw some_e at e in
      let eh : s.0 ≡ h = ap (λ (r : ThreadMap T × Held × ℤ). r.1) (ok-injective e') in
      let er : s.1 ≡ ret = ap (λ (r : ThreadMap T × Held × ℤ). r.2) (ok-injective e') in
      subst (Left a) eh (failed a (λ z. ne (sym er ∙ z)))
]
