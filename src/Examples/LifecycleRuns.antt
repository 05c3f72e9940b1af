-- ===== src/Examples/LifecycleRuns.antt =====
-- Loading the module at concrete answers of the kernel.
use ttex_kernel.Common.{◌≡◌, refl, ◌&&◌, not, true, false, some, ok, ℤ, pos, negsuc, ◌↔◌, arith}
use ttex_kernel.ThreadMap.Bounds.{new_map}
use ttex_kernel.Lifecycle.{
  Answers, Held, nothing_held, is_negative, ttex_kernel_init, ttex_kernel_exit,
}
use ttex_kernel.Lifecycle.Failure.{all_held, Succeeds, init-exit, init_failed}
use ttex_kernel.Examples.Demo.{Timers, buckets}

abbrev pub good : Answers
good = record {
  map_memory = some buckets;
  symbol_found = true;
  einval = 22;
  register_kprobe = pos 0;
  alloc_chrdev_region = pos 0;
  cdev_add = pos 0;
  class_error = false;
  device_error = false;
}

-- No class can be created.
abbrev bad : Answers
bad = record good { class_error = true }

init-exit_example :
    (h : Held) × (ret : ℤ) × (ttex_kernel_init {T = Timers} good ≡ ok (new_map buckets, h, ret))
    × ((ret ≡ pos 0) ↔ Succeeds good)
    × ((ret ≡ pos 0) ↔ (h ≡ all_held))
    × (h.map_memory ≡ true)
    × (ttex_kernel_exit h ≡ record nothing_held { map_memory = true })
init-exit_example = init-exit Timers good buckets refl (omega arith)

abbrev half_loaded : Held
half_loaded = record nothing_held { map_memory = true; mutex = true; kprobe = true; cdev = true }

init_failed_example :
    (half_loaded.map_memory ≡ true)
    × (half_loaded.kprobe ≡ (bad.symbol_found && not (is_negative bad.register_kprobe)))
    × (half_loaded.region ≡ false)
    × (half_loaded.dev_class ≡ false)
    × (half_loaded.device ≡ false)
    × (half_loaded.cdev ≡ (
        bad.symbol_found
        && not (is_negative bad.register_kprobe)
        && not (is_negative bad.alloc_chrdev_region)
        && not (is_negative bad.cdev_add)))
unfolding ttex_kernel_init
init_failed_example = init_failed Timers bad (new_map buckets) half_loaded (negsuc 0) refl (λ e. cc)
