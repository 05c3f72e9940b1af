-- ===== src/Examples/LegacyRuns.antt =====
-- The earlier module at concrete inputs.
use ttex_kernel.Common.{refl, ◌-ℤ◌, true, false, [], ◌∷◌, ℤ, pos, replicate}
use ttex_kernel.Timer.{plain_timers, plain_timers-IsTimerApi, Copied}
use ttex_kernel.Legacy.{
  Slot, Legacy, Request, etx_ioctl, at_index, on_value, ttex_kernel_init, clear_slots, pre_handler,
  post_handler, pause, resume, max_threads,
}
use ttex_kernel.Legacy.Unarmed.{Reach, start, ioctl, switch_out, switch_in, AllIdle, never_armed}
use ttex_kernel.Examples.Demo.{Timers, task, clock}
use ttex_kernel.Examples.LifecycleRuns.{good}

abbrev pub zeroed : Slot Timers
zeroed = record {
  thread_timer = (0, false);
  pending_jiffies = 0;
  mod_msecs = 0;
  timer_set = false;
  modified_timer = false;
  context_switch_started_timer = false;
}

abbrev small : Legacy Timers
small = record { slots = zeroed ∷ zeroed ∷ []; value = pos 0; parent_id = pos 0 }

abbrev id_of : ℤ → Copied ℤ
id_of k = record { content = k; failed = false }

-- Thread 1 starts, sets a budget, and is switched out and in.
abbrev started_one : Slot Timers
started_one = record zeroed { timer_set = true; mod_msecs = 250 }

abbrev end : Legacy Timers
end = record { slots = zeroed ∷ started_one ∷ []; value = pos 1; parent_id = pos 0 }

abbrev middle : Legacy Timers
middle = record {
  slots = zeroed ∷ record zeroed { timer_set = true } ∷ [];
  value = pos 1;
  parent_id = pos 0;
}

history : Reach plain_timers (ttex_kernel_init good small).0 end
unfolding ttex_kernel_init clear_slots etx_ioctl on_value at_index pre_handler post_handler pause
    resume ◌-ℤ◌
history =
    switch_in {d = end} (task 1) (clock 9 9)
      (switch_out {d = end} (task 1) (clock 5 5)
        (ioctl {d = middle}
          (Request.mod_timer_new
            (record { content = record { id = pos 1; time_val = 250 }; failed = false }))
          (ioctl (Request.start_timer (id_of (pos 1))) start refl) refl)
        refl)
      refl

never_armed_example : AllIdle plain_timers end.slots
never_armed_example =
    never_armed plain_timers plain_timers-IsTimerApi good small end (refl, (refl, tt)) history

abbrev pub full : Legacy Timers
full = record { slots = replicate max_threads zeroed; value = pos 0; parent_id = pos 100 }
