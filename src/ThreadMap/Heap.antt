-- ===== src/ThreadMap/Heap.antt =====
-- Laws of the heap of map nodes: what a write changes, and what a new node leaves alone.
use mathlib.Core.Option
use ttex_kernel.Common.{◌≡◌, refl, ◌≢◌, some, [], ◌∷◌, arith, ◌==◌, if◌then◌else◌, length}
use ttex_kernel.ThreadMap.{Ptr, MapNode, Nodes, load, modify}

module _ {T : Type 0} where
  pub load-modify :
      (f : MapNode T → MapNode T) (mem : Nodes T) (p q : Ptr)
      → load (modify f mem p) q ≡ (if p == q then Option.map f (load mem q) else load mem q)
  unfolding load modify
  load-modify f [] p q = ground arith
  load-modify f ((r, n) ∷ mem) p q = ground (arith, load-modify f mem p q)

  pub load-modify_self :
      (f : MapNode T → MapNode T) (mem : Nodes T) (p : Ptr) (n : MapNode T)
      → load mem p ≡ some n
      → load (modify f mem p) p ≡ some (f n)
  load-modify_self f mem p n h = ground (arith, load-modify f mem p p)

  pub load-modify_ne :
      (f : MapNode T → MapNode T) (mem : Nodes T) (p q : Ptr)
      → p ≢ q
      → load (modify f mem p) q ≡ load mem q
  load-modify_ne f mem p q h = ground (arith, load-modify f mem p q)

  pub length-modify :
      (f : MapNode T → MapNode T) (mem : Nodes T) (p : Ptr) → length (modify f mem p) ≡ length mem
  unfolding modify
  length-modify f [] p = refl
  length-modify f ((r, n) ∷ mem) p = ground (arith, length-modify f mem p)

  pub modify-modify :
      (f g : MapNode T → MapNode T) (mem : Nodes T) (p : Ptr)
      → modify f (modify g mem p) p ≡ modify (λ n. f (g n)) mem p
  unfolding modify
  modify-modify f g [] p = refl
  modify-modify f g ((r, n) ∷ mem) p = ground (arith, modify-modify f g mem p)

  pub load-cons_ne :
      (mem : Nodes T) (p q : Ptr) (n : MapNode T) → p ≢ q → load ((p, n) ∷ mem) q ≡ load mem q
  unfolding load
  load-cons_ne mem p q n h = ground arith

  pub load-cons_self : (mem : Nodes T) (p : Ptr) (n : MapNode T) → load ((p, n) ∷ mem) p ≡ some n
  unfolding load
  load-cons_self mem p n = ground arith
