-- ===== src/Lifecycle.antt =====
-- Loading and unloading of the module of ttex_kernel_update.c: `ttex_kernel_init`, with its error
-- labels, and `ttex_kernel_exit`. The answers of the kernel's functions are arguments, and the
-- state is what the module holds of the kernel. The device part is written once; the init functions
-- of ttex_kernel.c and Kernel_Practice/user_to_kernel_time.c repeat it word for word.
pub mod Failure
use ttex_kernel.Common.{
  ℕ, Bool, true, false, Option, none, some, List, if◌then◌else◌, not, ℤ, pos, negsuc, Outcome, ok,
  fault,
}
use ttex_kernel.ThreadMap.{Ptr, ThreadMap, negated}
use ttex_kernel.ThreadMap.Bounds.{new_map}

-- What the kernel's functions answer while the module is loaded; `map_memory` is the array that the
-- allocated `thread_map` first holds, and `einval` the number behind `EINVAL`.
pub record Answers : Type 0 where
  pub map_memory : Option (List Ptr)
  pub symbol_found : Bool
  pub einval : ℕ
  pub register_kprobe : ℤ
  pub alloc_chrdev_region : ℤ
  pub cdev_add : ℤ
  pub class_error : Bool
  pub device_error : Bool

-- What the module holds of the kernel; `map_memory` is the block that `thread_map` points to.
pub record Held : Type 0 where
  pub map_memory : Bool
  pub mutex : Bool
  pub kprobe : Bool
  pub region : Bool
  pub cdev : Bool
  pub dev_class : Bool
  pub device : Bool

abbrev pub nothing_held : Held
nothing_held = record {
  map_memory = false;
  mutex = false;
  kprobe = false;
  region = false;
  cdev = false;
  dev_class = false;
  device = false;
}

abbrev pub is_negative : ℤ → Bool
is_negative (pos n) = false
is_negative (negsuc n) = true

-- `r_class:` and what is behind it.
unfoldable pub r_class : Held → Held × ℤ
r_class h = (record h { region = false }, negsuc 0)

-- `r_device:`, which falls through.
unfoldable pub r_device : Held → Held × ℤ
unfolding r_class
r_device h = r_class (record h { dev_class = false })

-- From `alloc_chrdev_region` to the end.
unfoldable pub setup_device : Answers → Held → Held × ℤ
unfolding r_class r_device
setup_device a h =
    if is_negative a.alloc_chrdev_region
    then (h, negsuc 0)
    else (let h1 = record h { region = true } in
        if is_negative a.cdev_add
        then r_class h1
        else (let h2 = record h1 { cdev = true } in
            if a.class_error
            then r_class h2
            else (let h3 = record h2 { dev_class = true } in
                if a.device_error then r_device h3 else (record h3 { device = true }, pos 0))))

-- The kprobe, and the device behind it.
unfoldable pub setup_kprobe : Answers → Held → Held × ℤ
unfolding setup_device
setup_kprobe a h =
    if not a.symbol_found
    then (h, negated a.einval)
    else if is_negative a.register_kprobe
    then (h, a.register_kprobe)
    else setup_device a (record h { kprobe = true })

-- The write to `arr_size` is a fault where the map was not allocated.
unfoldable pub ttex_kernel_init : {T : Type 0} → Answers → Outcome (ThreadMap T × Held × ℤ)
unfolding setup_kprobe
ttex_kernel_init a = elim (a.map_memory) [
  | none ↦ fault
  | some raw ↦
      let (h, ret) = setup_kprobe a (record nothing_held { mutex = true; map_memory = true }) in
      ok (new_map raw, h, ret)
]

-- `device_destroy`, `class_destroy`, `cdev_del`, `unregister_chrdev_region`, and for the kprobe
-- module `mutex_destroy` and `unregister_kprobe`. Nothing frees the map.
unfoldable pub remove_device : Held → Held
remove_device h = record h { device = false; dev_class = false; cdev = false; region = false }

unfoldable pub ttex_kernel_exit : Held → Held
unfolding remove_device
ttex_kernel_exit h = record (remove_device h) { mutex = false; kprobe = false }
