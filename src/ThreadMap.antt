-- ===== src/ThreadMap.antt =====
-- The hash map from thread ids to timer data of ttex_kernel_update.c (lines 24 to 114).
-- Pointers are numbers, and the map nodes stand in an explicit heap. What `kmalloc` returns is an
-- argument, 0 when it fails. Each list walk runs on fuel, one round more than the heap has nodes.
pub mod Heap
pub mod Chain
pub mod Refine
pub mod Bounds
pub mod Unallocated
pub mod Attach
pub mod Insert
pub mod Overlap
pub mod Info
pub mod Write
pub mod Lookup
pub mod Abstract
use ttex_kernel.Common.{
  ℕ, zero, suc, ◌+◌, ◌%◌, Bool, Option, none, some, List, [], ◌∷◌, ◌==◌, if◌then◌else◌, length,
  get_elem?, set, ℤ, pos, negsuc, eq_ℤ, Outcome, ok, fault, out_of_fuel, ◌>>=◌, of_option,
}

abbrev pub max_threads : ℕ
max_threads = 50

abbrev pub Ptr : Type 0
Ptr = ℕ

abbrev pub null : Ptr
null = 0

-- `struct thread_data`; `T` is the kernel's `struct timer_list`.
pub record ThreadData (T : Type 0) : Type 0 where
  pub thread_timer : T
  pub pending_jiffies : ℕ
  pub paused_time : ℕ
  pub total_paused_time : ℕ
  pub executed_time : ℕ
  pub get_kern_time : ℕ
  pub mod_msecs : ℕ
  pub timer_set : Bool
  pub mod_timer : Bool
  pub timer_triggered : Bool
  pub context_switch_start : Bool

-- `struct map_node`.
pub record MapNode (T : Type 0) : Type 0 where
  pub key : ℤ
  pub info : ThreadData T
  pub next : Ptr

abbrev pub Nodes : Type 0 → Type 0
Nodes T = List (Ptr × MapNode T)

-- `struct thread_map_struct`, with the heap that its nodes stand in.
pub record ThreadMap (T : Type 0) : Type 0 where
  pub array : List Ptr
  pub arr_size : ℕ
  pub nodes : Nodes T

module _ {T : Type 0} where
  unfoldable pub load : Nodes T → Ptr → Option (MapNode T)
  load [] p = none
  load ((q, n) ∷ mem) p = if q == p then some n else load mem p

  unfoldable pub modify : (MapNode T → MapNode T) → Nodes T → Ptr → Nodes T
  modify f [] p = []
  modify f ((q, n) ∷ mem) p = if q == p then (q, f n) ∷ mem else (q, n) ∷ modify f mem p

  -- `*p`: a fault at `NULL` and where no node stands.
  abbrev pub deref : Nodes T → Ptr → Outcome (MapNode T)
  deref mem p = if p == null then fault else of_option (load mem p)

-- C's `%` rounds towards zero, so the remainder of a negative key is not positive.
abbrev pub negated : ℕ → ℤ
negated zero = pos 0
negated (suc n) = negsuc n

unfoldable pub hash_function : ℤ → ℤ
hash_function (pos n) = pos (n % max_threads)
hash_function (negsuc n) = negated (suc n % max_threads)

-- `map->array[index]`: an index outside the array is a fault.
abbrev pub array_at : List Ptr → ℤ → Outcome Ptr
array_at a (pos i) = of_option (get_elem? a i)
array_at a (negsuc i) = fault

abbrev pub array_set : List Ptr → ℤ → Ptr → List Ptr
array_set a (pos i) p = set a i p
array_set a (negsuc i) p = a

module _ {T : Type 0} where
  -- The pointer returned, and the map whose heap holds the new node.
  unfoldable pub create_node : ThreadMap T → (fresh : Ptr) → ℤ → ThreadData T → Ptr × ThreadMap T
  create_node m fresh key val = if fresh == null then (null, m) else (
    fresh,
    record m { nodes = (fresh, record { key = key; info = val; next = null }) ∷ m.nodes },
  )

  -- `while (curr->next != NULL) curr = curr->next;`
  unfoldable pub last_node : ℕ → Nodes T → Ptr → Outcome Ptr
  last_node zero mem curr = out_of_fuel
  last_node (suc fuel) mem curr = deref mem curr >>= λ n.
      let rest = last_node fuel mem n.next in if n.next == null then ok curr else rest

  abbrev pub set_next : Ptr → MapNode T → MapNode T
  set_next p n = record n { next = p }

  -- The two branches of `insert`, once the bucket's head is read.
  unfoldable pub link : ThreadMap T → ℤ → Ptr → (head : Ptr) → Outcome (ThreadMap T)
  link m index new_node head =
      if head == null
      then ok (record m { array = array_set m.array index new_node; arr_size = m.arr_size + 1 })
      else (last_node (suc (length m.nodes)) m.nodes head >>= λ tail.
          ok (record m { nodes = modify (set_next new_node) m.nodes tail }))

  unfoldable pub insert : ThreadMap T → (fresh : Ptr) → ℤ → ThreadData T → Outcome (ThreadMap T)
  unfolding create_node link
  insert m fresh key val =
      let index = hash_function key in
      let (new_node, m') = create_node m fresh key val in
      array_at m'.array index >>= λ head. link m' index new_node head

  -- `while (curr != NULL)`: the first node of the key.
  unfoldable pub walk : ℕ → Nodes T → ℤ → Ptr → Outcome (Option Ptr)
  walk zero mem key curr = out_of_fuel
  walk (suc fuel) mem key curr =
      if curr == null
      then ok none
      else (deref mem curr >>= λ n.
          let rest = walk fuel mem key n.next in if eq_ℤ n.key key then ok (some curr) else rest)

  -- The address of the node whose `info` the C function points to; `none` for `NULL`.
  unfoldable pub get : ThreadMap T → ℤ → Outcome (Option Ptr)
  get m key =
      array_at m.array (hash_function key) >>= λ head. walk (suc (length m.nodes)) m.nodes key head
