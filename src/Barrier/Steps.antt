-- ===== src/Barrier/Steps.antt =====
-- A marking cycle as a sequence of steps, the collector's and the user's in any order.
use gc_lite.Base.{ℕ, suc, ◌≡◌, Bool, List, Option, ◌∈◌, ◌⊎◌}
use gc_lite.Node.{Ptr}
use gc_lite.Gctype.{GcTypeInfo}
use gc_lite.Heap.{GcHeap, GcScopeState}
use gc_lite.Mem.{ok, alloc_raw, alloc_root_raw}
use gc_lite.Mark.{mark}
use gc_lite.Barrier.{with_write_barrier, write_payload, bind, set_root_node}
use gc_lite.Barrier.Cycle.{IsCycle, mark-IsCycle}
use gc_lite.Barrier.Write.{Attached, with_write_barrier-IsCycle, bind-write-IsCycle}
use gc_lite.Barrier.Root.{set_root_node-IsCycle}
use gc_lite.Scope.{add_non_local, clear}
use gc_lite.Barrier.Local.{add_non_local-IsCycle, clear-IsCycle}
use gc_lite.Barrier.Alloc.{Fresh, alloc_raw-IsCycle, alloc_root_raw-IsCycle}

-- One step while partition `pid` is in its cycle. Nodes that the user names are in their chains, and
-- memory that the allocator gives out is in none.
pub data Step (pid : ℕ) : GcHeap → GcHeap → Type 0 where
  marking : (h : GcHeap) (n : ℕ) → Step pid h (mark h pid (suc n)).1
  allocate :
      (malloc : Option Ptr) (layout_ok : GcTypeInfo → Bool) (h : GcHeap) (i dtype : ℕ)
      (refs : List Ptr) (g : GcHeap) (p : Ptr)
      → alloc_raw malloc layout_ok h i dtype refs ≡ ok (g, p)
      → Fresh h p
      → ((q : Ptr) → q ∈ refs → Attached h q)
      → Step pid h g
  allocate_root :
      (malloc : Option Ptr) (layout_ok : GcTypeInfo → Bool) (h : GcHeap) (i dtype : ℕ)
      (refs : List Ptr) (g : GcHeap) (p : Ptr)
      → alloc_root_raw malloc layout_ok h i dtype refs ≡ ok (g, p)
      → Fresh h p
      → ((q : Ptr) → q ∈ refs → Attached h q)
      → Step pid h g
  root : (h : GcHeap) (p : Ptr) → Attached h p → Step pid h (set_root_node h p)
  write :
      (h : GcHeap) (p : Ptr) (refs : List Ptr)
      → Attached h p
      → ((q : Ptr) → q ∈ refs → Attached h q)
      → Step pid h (with_write_barrier h p refs)
  link :
      (h : GcHeap) (master slave : Ptr) (refs : List Ptr)
      → Attached h slave
      → ((q : Ptr) → q ∈ refs → Attached h q)
      → ((q : Ptr) → q ∈ refs → (slave ≡ q) ⊎ (q ∈ h.payload master))
      → Step pid h (write_payload (bind h master slave) master refs)
  local_node :
      (h : GcHeap) (s : GcScopeState) (p : Ptr)
      → s.partition_id ≡ (h.mem p).partition_id
      → Attached h p
      → Step pid h (add_non_local h s p).1
  unlocal : (h : GcHeap) (s : GcScopeState) → Step pid h (clear h s).0

pub data Steps (pid : ℕ) : GcHeap → GcHeap → Type 0 where
  stay : (h : GcHeap) → Steps pid h h
  then_step : {h g k : GcHeap} → Steps pid h g → Step pid g k → Steps pid h k

-- Each step keeps the invariant of the cycle.
pub Step-IsCycle : {pid : ℕ} {h g : GcHeap} → Step pid h g → IsCycle h pid → IsCycle g pid
Step-IsCycle {pid} (marking h n) c = mark-IsCycle h pid n c
Step-IsCycle {pid} (allocate malloc layout_ok h i dtype refs g p e fresh known) c =
    alloc_raw-IsCycle malloc layout_ok h i dtype refs g p pid e fresh known c
Step-IsCycle {pid} (allocate_root malloc layout_ok h i dtype refs g p e fresh known) c =
    alloc_root_raw-IsCycle malloc layout_ok h i dtype refs g p pid e fresh known c
Step-IsCycle {pid} (root h p at) c = set_root_node-IsCycle h p pid c at
Step-IsCycle {pid} (write h p refs at known) c = with_write_barrier-IsCycle h p refs pid c at known
Step-IsCycle {pid} (link h master slave refs at known new) c =
    bind-write-IsCycle h master slave refs pid c at known new
Step-IsCycle {pid} (local_node h s p same at) c = add_non_local-IsCycle h s p pid same c at
Step-IsCycle {pid} (unlocal h s) c = clear-IsCycle h s pid c

pub Steps-IsCycle : {pid : ℕ} {h g : GcHeap} → Steps pid h g → IsCycle h pid → IsCycle g pid
Steps-IsCycle (stay h) c = c
Steps-IsCycle (then_step ss s) c = Step-IsCycle s (Steps-IsCycle ss c)
