-- ===== src/Legacy.antt =====
-- ttex_kernel.c, the earlier version of the module: the timers stand in arrays that are indexed by
-- the difference of a thread's id and the id that PARENT_ID stored. An index outside is a fault.
-- One record of `Slot` stands for the entries of the five arrays at one index.
pub mod Unarmed
use ttex_kernel.Common.{
  ℕ, zero, suc, ◌+◌, ◌%◌, Bool, true, false, Option, none, some, List, [], ◌∷◌, ◌==◌, if◌then◌else◌,
  get_elem?, set, ℤ, pos, negsuc, ◌-ℤ◌, Outcome, ok, fault, ◌>>=◌, of_option,
}
use ttex_kernel.Timer.{TimerApi, Clock, Task, Copied, add64, sub64, u32_mod}
use ttex_kernel.Driver.{UpdatedTimer}
use ttex_kernel.Lifecycle.{Answers, Held, nothing_held, setup_kprobe, remove_device}

abbrev pub max_threads : ℕ
max_threads = 50

pub record Slot (T : Type 0) : Type 0 where
  pub thread_timer : T
  pub pending_jiffies : ℕ
  pub mod_msecs : ℕ
  pub timer_set : Bool
  pub modified_timer : Bool
  pub context_switch_started_timer : Bool

-- The module's global variables.
pub record Legacy (T : Type 0) : Type 0 where
  pub slots : List (Slot T)
  pub value : ℤ
  pub parent_id : ℤ

pub data Request : Type 0 where
  parent : Copied ℤ → Request
  start_timer : Copied ℤ → Request
  mod_timer : Copied ℤ → Request
  del_timer : Copied ℤ → Request
  mod_timer_new : Copied UpdatedTimer → Request
  default : Request

module _ {T : Type 0} where
  -- A write to the entries at an index.
  unfoldable pub at_index : Legacy T → ℤ → (Slot T → Slot T) → Outcome (Legacy T)
  at_index d (pos i) f =
      of_option (get_elem? d.slots i) >>= λ s. ok (record d { slots = set d.slots i (f s) })
  at_index d (negsuc i) f = fault

module _ (api : TimerApi) where
  open api use {
    TimerList, expires, timer_pending, timer_setup, msecs_to_jiffies, del_timer as del,
    mod_timer as mod',
  }

  abbrev pub State : Type 0
  State = Legacy TimerList

  abbrev pub Entry : Type 0
  Entry = Slot TimerList

  abbrev pub started : Entry → Entry
  started s = record s { thread_timer = timer_setup s.thread_timer; timer_set = true }

  abbrev pub stopped : Entry → Entry
  stopped s = record s { timer_set = false; thread_timer = del s.thread_timer }

  abbrev pub flagged : Entry → Entry
  flagged s = record s { modified_timer = true }

  abbrev pub budget : ℕ → Entry → Entry
  budget msecs s = record s { mod_msecs = msecs }

  -- `timer_id = (int) value-parent_id`, with `value` as just copied.
  unfoldable pub on_value : State → ℤ → (Entry → Entry) → Outcome State
  on_value d id f = at_index (record d { value = id }) (id -ℤ d.parent_id) f

  unfoldable pub etx_ioctl : State → Request → Outcome State
  etx_ioctl d (Request.parent id) = ok (record d { parent_id = id.content })
  etx_ioctl d (Request.start_timer id) = on_value d id.content started
  etx_ioctl d (Request.mod_timer id) = on_value d id.content flagged
  etx_ioctl d (Request.del_timer id) = on_value d id.content stopped
  etx_ioctl d (Request.mod_timer_new req) =
      at_index d (req.content.id -ℤ d.parent_id) (budget req.content.time_val)
  etx_ioctl d Request.default = ok d

  unfoldable pub pause : Clock → Entry → Entry
  pause now s =
      if s.timer_set
      then if timer_pending s.thread_timer
        then record s {
          pending_jiffies = sub64 (expires s.thread_timer) now.jiffies;
          thread_timer = del s.thread_timer;
        }
        else s
      else s

  unfoldable pub resume : Clock → Entry → Entry
  resume now s =
      if s.timer_set
      then if s.mod_msecs == 0
        then if timer_pending s.thread_timer
          then record s { thread_timer = mod' s.thread_timer (add64 now.jiffies s.pending_jiffies) }
          else s
        else if timer_pending s.thread_timer
        then record s {
          thread_timer =
              mod' (del s.thread_timer)
                (add64 now.jiffies (msecs_to_jiffies (s.mod_msecs % u32_mod)));
          mod_msecs = 0;
        }
        else s
      else s

  unfoldable pub pre_handler : State → (pre_task : Task) → Clock → Outcome State
  pre_handler d pre_task now =
      if pre_task.rt_priority == 10
      then at_index d (pre_task.pid -ℤ d.parent_id) (pause now)
      else ok d

  unfoldable pub post_handler : State → (post_task : Task) → Clock → Outcome State
  post_handler d post_task now =
      if post_task.rt_priority == 10
      then at_index d (post_task.pid -ℤ d.parent_id) (resume now)
      else ok d

-- The loop of the initialisation over the entries.
unfoldable pub clear_slots : {T : Type 0} → List (Slot T) → List (Slot T)
clear_slots [] = []
clear_slots (s ∷ ss) =
    record s {
      timer_set = false;
      modified_timer = false;
      context_switch_started_timer = false;
      mod_msecs = 0;
    }
    ∷ clear_slots ss

-- `ttex_kernel_init`: the loop, and behind it the kprobe and the device as in the later module, which
-- has a mutex and a map as well.
unfoldable pub ttex_kernel_init : {T : Type 0} → Answers → Legacy T → Legacy T × Held × ℤ
ttex_kernel_init a d =
    let (h, ret) = setup_kprobe a nothing_held in (record d { slots = clear_slots d.slots }, h, ret)

-- The `ttex_kernel_exit` of ttex_kernel.c.
unfoldable pub ttex_kernel_exit : Held → Held
ttex_kernel_exit h = record (remove_device h) { kprobe = false }
