-- ===== src/Profiler/Regions.antt =====
-- A thread along the borders of regions that it crosses: the last region of its list runs.
use ttex_kernel.Common.{ℕ, ◌≡◌, refl, true, false, some, List, [], ◌∷◌, ◌++◌, ℤ, pos, Outcome, ok}
use ttex_kernel.ThreadMap.{Ptr, null}
use ttex_kernel.Profiler.{
  to_i32, TimeoutNode, LoopDetails, ThreadInfo, get_timer, back, set_back, reset_timer, timed,
  end_region, begun, begin_region, cross, Border, is_none, region_of, Counters, on_thread_begin,
  set_scheduler, set_affinity, open_device, start_timer, thread_priority, core_of,
}

-- The last region has `timer_set_flag` 1.
pub record Running (v : List TimeoutNode) : Type 0 where
  pub done : List TimeoutNode
  pub last : TimeoutNode
  pub shape : v ≡ done ++ (last ∷ [])
  pub set : last.timer_set_flag ≡ true

back-append : (ns : List TimeoutNode) (x : TimeoutNode) → back (ns ++ (x ∷ [])) ≡ ok x
unfolding back
back-append [] x = refl
back-append (a ∷ []) x = refl
back-append (a ∷ (b ∷ ns)) x = back-append (b ∷ ns) x

set_back-append :
    (f : TimeoutNode → TimeoutNode) (ns : List TimeoutNode) (x : TimeoutNode)
    → set_back f (ns ++ (x ∷ [])) ≡ ok (ns ++ (f x ∷ []))
unfolding set_back
set_back-append f [] x = refl
set_back-append f (a ∷ []) x = refl
set_back-append f (a ∷ (b ∷ ns)) x = rw (set_back-append f (b ∷ ns) x)

end_region-append :
    (ns : List TimeoutNode) (x : TimeoutNode) (stop : ℕ)
    → x.timer_set_flag ≡ true
    → end_region (ns ++ (x ∷ [])) stop ≡ ok (ns ++ (timed stop x ∷ []), get_timer ∷ [])
unfolding end_region
end_region-append ns x stop set = rw (back-append ns x, set_back-append (timed stop) ns x) (rw set)

-- At a border, where the last region runs, and whatever the structures of GET_TIMER hold, the tool
-- sends GET_TIMER twice and then the budget of the new region, which runs then; the thread's parallel
-- region stays.
pub cross-Running :
    (info : ThreadInfo) (n : TimeoutNode) (tid : ℤ) (stop start : ℕ)
    → Running info.thread_current_timeout
    → (info' : ThreadInfo) × (cross info n tid stop start
        ≡ ok (info', get_timer ∷ get_timer ∷ reset_timer tid n.wcet ∷ []))
      × Running info'.thread_current_timeout
      × (info'.region_data ≡ info.region_data)
unfolding cross begin_region
cross-Running info n tid stop start run = (
  record info {
    thread_current_timeout = (run.done ++ (timed stop run.last ∷ [])) ++ (begun start n ∷ []);
  },
  rw (run.shape, end_region-append run.done run.last stop run.set),
  record {
    done = run.done ++ (timed stop run.last ∷ []);
    last = begun start n;
    shape = refl;
    set = refl;
  },
  refl,
)

-- What a thread begins with when its device opens.
pub on_thread_begin-Running :
    (thread_begin : TimeoutNode) (c : Counters) (fd : ℕ) (tid : ℤ) (start : ℕ)
    → (c' : Counters) × (info : ThreadInfo) × (on_thread_begin thread_begin c (pos fd) tid start ≡ (
      c',
      some info,
      set_scheduler thread_priority
          ∷ set_affinity (core_of (to_i32 c.core))
          ∷ open_device
          ∷ start_timer tid
          ∷ get_timer
          ∷ reset_timer tid thread_begin.wcet
          ∷ [],
    ))
      × Running info.thread_current_timeout
      × (info.region_data ≡ null)
unfolding on_thread_begin begin_region
on_thread_begin-Running thread_begin c fd tid start = (
  _,
  record {
    id = to_i32 c.next;
    kid = pos 0;
    fd = pos fd;
    counter = pos 0;
    region_data = null;
    thread_current_timeout = begun start thread_begin ∷ [];
  },
  refl,
  record { done = []; last = begun start thread_begin; shape = refl; set = refl },
  refl,
)

module _ (loop_execution : List (List LoopDetails)) (value_at : Ptr → Outcome ℕ) where
  -- Each border names a region that the tables hold; `p` is the region's data.
  abbrev pub AreKnown : (p : Ptr) → List Border → Type 0
  AreKnown p [] = Unit
  AreKnown p (b ∷ bs) =
      (is_none b ≡ false)
      × ((info : ThreadInfo)
          → info.region_data ≡ p
          → (n : TimeoutNode) × (region_of loop_execution value_at info b ≡ ok n))
      × AreKnown p bs
