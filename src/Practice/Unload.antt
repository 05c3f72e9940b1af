-- ===== src/Practice/Unload.antt =====
-- What the module of user_to_kernel_time.c holds behind its loading and its unloading.
use ttex_kernel.Common.{Bool, if◌then◌else◌, negsuc, true, ◌&&◌, not, pos, ◌≡◌, arith}
use ttex_kernel.Lifecycle.{Answers, Held, nothing_held, is_negative, setup_device}
use ttex_kernel.Practice.{ktime_sub_module_init, ktime_sub_module_exit}

-- What is held when loading fails: the character device, where it had been added, and nothing else.
abbrev pub left : Answers → Held
left a = record nothing_held {
  cdev = not (is_negative a.alloc_chrdev_region) && not (is_negative a.cdev_add);
}

abbrev pub device_held : Held
device_held = record nothing_held { region = true; cdev = true; dev_class = true; device = true }

abbrev pub all_granted : Answers → Bool
all_granted a =
    not (is_negative a.alloc_chrdev_region)
    && not (is_negative a.cdev_add)
    && not a.class_error
    && not a.device_error

-- `ktime_sub_module_init` either holds the region, the character device, the class and the device
-- and returns 0, where every answer of the kernel is a success, or returns -1 and still holds the
-- character device exactly where its addition had succeeded, and nothing else;
-- `ktime_sub_module_exit` then gives back whatever is held.
init_held :
    (a : Answers)
    → (ktime_sub_module_init a
        ≡ (if all_granted a then (device_held, pos 0) else (left a, negsuc 0)))
      × (ktime_sub_module_exit (ktime_sub_module_init a).0 ≡ nothing_held)
unfolding ktime_sub_module_init ktime_sub_module_exit setup_device
init_held a = (ground arith, ground arith)
