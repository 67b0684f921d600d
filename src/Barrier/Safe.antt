-- ===== src/Barrier/Safe.antt =====
-- The end of a marking cycle: what the steps have come to when the sweep begins.
use gc_lite.Base.{
  ℕ, suc, ◌≡◌, refl, true, false, not, List, [], ◌∷◌, Option, some, none, arith, ◌∈◌, ◌∉◌, ==_iff,
  contains-keep, Bool-cases, inl, inr, length, sym, subst,
}
use gc_lite.Node.{Ptr, black}
use gc_lite.Heap.{GcHeap, partition_at}
use gc_lite.Mark.{mark_prepare, mark_until, is_empty}
use gc_lite.Mark.Frame.{Frame-refl}
use gc_lite.Mark.Invariant.{Reach}
use gc_lite.Mark.Loop.{pending-le-length}
use gc_lite.Mark.Cycle.{region, IsSound, IsIdle, IsMarked, black_of_Reach, mark_until-IsMarked}
use gc_lite.Barrier.Cycle.{IsCycle, mark_prepare-IsCycle, IsCycle-IsMarking}
use gc_lite.Barrier.Steps.{Steps, Steps-IsCycle}
use gc_lite.Sweep.{is_dead, sweep_unlink}
use gc_lite.Sweep.Result.{live, sweep_unlink-eq, at_split, split}

-- The list that `sweep_unlink` gives, empty where it gives none.
abbrev pub listed : Option (List Ptr) → List Ptr
listed none = []
listed (some white) = white

-- The node is still in the chain after `sweep_unlink`, and not in the list that it cuts out.
abbrev pub Kept : GcHeap → ℕ → Ptr → Type 0
Kept k pid p =
    (p ∈ (partition_at (sweep_unlink k pid).0 pid).nodes) × (p ∉ listed (sweep_unlink k pid).1)

nonempty : {A : Type 0} (ns : List Ptr) (p : Ptr) → p ∈ ns → is_empty ns ≡ true → A
nonempty [] p i e = cc
nonempty (n ∷ ns) p i e = cc

split_nodes :
    (k : GcHeap) (pid : ℕ) (c : IsCycle k pid)
    → (partition_at (split k pid c.range) pid).nodes ≡ live k pid
split_nodes k pid c = ground (arith, at_split k pid c.range pid, ==_iff pid pid)

pub live-Kept :
    (k : GcHeap) (pid : ℕ) (p : Ptr)
    → IsCycle k pid
    → (partition_at k pid).gray_list ≡ []
    → p ∈ (partition_at k pid).nodes
    → is_dead k p ≡ false
    → Kept k pid p
live-Kept k pid p c drained i alive = elim (Bool-cases (is_empty (partition_at k pid).nodes)) [
  | inl none_ ↦ (nonempty (partition_at k pid).nodes p i none_)
  | inr full ↦ rw (sweep_unlink-eq k pid c.range c.marking drained full) (
    subst (λ (ns : List Ptr). p ∈ ns) (sym (split_nodes k pid c))
        (ground (arith, contains-keep (λ n. not (is_dead k n)) (partition_at k pid).nodes p)),
    ground (arith, contains-keep (is_dead k) (partition_at k pid).nodes p),
  )
]

Reach-Kept :
    (k : GcHeap) (pid : ℕ) (p : Ptr)
    → IsCycle k pid
    → (partition_at k pid).gray_list ≡ []
    → Reach (region k pid) p
    → Kept k pid p
Reach-Kept k pid p c drained w =
    let marked : IsMarked (region k pid) k k = record {
      cycle = IsCycle-IsMarking c;
      empty = drained;
      frame = Frame-refl k;
      exact = λ x. x;
    } in
    let (i, b) = black_of_Reach marked w in live-Kept k pid p c drained i (rw b refl)

-- A marking cycle of a partition begins in a sound heap where the partition is idle, and then the
-- collector's bounded marking steps and the user's steps take turns in any order: allocation in any
-- partition, new roots, writes under `with_write_barrier`, writes after `bind`, nodes protected by
-- a scope of their partition, scopes cleared. Where the gray list is empty at last, `sweep_unlink`
-- leaves every node in the chain that a path inside the partition joins to a root or local node as
-- the references then are, and no such node is in the list that it cuts out.
pub Steps-sweep_unlink :
    (h : GcHeap) (pid : ℕ) (k : GcHeap) (p : Ptr)
    → IsSound h
    → IsIdle h pid
    → Steps pid (mark_prepare h pid) k
    → (partition_at k pid).gray_list ≡ []
    → Reach (region k pid) p
    → Kept k pid p
Steps-sweep_unlink h pid k p s i steps drained w =
    Reach-Kept k pid p (Steps-IsCycle steps (mark_prepare-IsCycle h pid s i)) drained w

-- A marking cycle of a partition begins in a sound heap where the partition is idle, and then the
-- collector's bounded marking steps and the user's steps take turns in any order. At any point of it
-- the loop of `mark` calls with 64 steps each ends, within as many calls as the partition has nodes
-- and one, with an empty gray list; the references and the partition's chain are as they were, and
-- every node is black that a path inside the partition joins to a root or local node.
pub Steps-mark_until :
    (h : GcHeap) (pid : ℕ) (k : GcHeap)
    → IsSound h
    → IsIdle h pid
    → Steps pid (mark_prepare h pid) k
    → (m : GcHeap) × (mark_until (suc (length (partition_at k pid).nodes)) k pid ≡ some m)
      × ((partition_at m pid).gray_list ≡ [])
      × ((partition_at m pid).nodes ≡ (partition_at k pid).nodes)
      × (m.payload ≡ k.payload)
      × ((p : Ptr) → Reach (region k pid) p → (m.mem p).color ≡ black)
Steps-mark_until h pid k s i steps =
    let c = Steps-IsCycle steps (mark_prepare-IsCycle h pid s i) in
    let ns = (partition_at k pid).nodes in
    let (m, e, v) =
      mark_until-IsMarked (suc (length ns)) k (IsCycle-IsMarking c)
        (omega (arith, pending-le-length ns k)) in
    (m, e, v.empty, v.cycle.nodes, v.frame.payload, λ p w. (black_of_Reach v w).1)
