-- ===== src/Sweep/Facts.antt =====
-- `garbage_collect` from an idle partition: the heap that its marking leaves, and the sweep of it.
use gc_lite.Base.{
  ℕ, suc, ◌+◌, ◌≤◌, ◌≡◌, refl, ap, false, List, arith, ◌∈◌, length, leb, contains-keep, some,
}
use gc_lite.Node.{Ptr}
use gc_lite.Heap.{GcHeap, partition_at}
use gc_lite.Mark.{mark_prepare}
use gc_lite.Mark.Frame.{Frame, Frame-trans}
use gc_lite.Mark.Invariant.{Reach, Exact}
use gc_lite.Mark.Cycle.{
  region, IsSound, IsIdle, IsMarked, black_of_Reach, mark_until-ends, marked_all,
  Frame-mark_prepare, marked_nodes, marked_used,
}
use gc_lite.Sweep.{is_dead, sweep_all, garbage_collect}
use gc_lite.Sweep.Dispose.{total_size}
use gc_lite.Sweep.Result.{IsSwept, IsSwept-sweep_all, dead, live, size_of_dead}
use gc_lite.Sweep.Accounts.{
  IsAccounted, IsRegistry, IsTyped, used-le-sum_used, total_size-same, total_size-keep,
  Charged-intro,
}

-- A heap between collections.
pub record IsReady (h : GcHeap) (pid : ℕ) : Type 0 where
  pub sound : IsSound h
  pub idle : IsIdle h pid
  pub accounted : IsAccounted h
  pub registry : IsRegistry h.node_dtypes
  pub typed : IsTyped h

-- What the marking of `h` has come to.
pub record Facts (h : GcHeap) (pid : ℕ) (k : GcHeap) : Type 0 where
  pub marked : IsMarked (region h pid) (mark_prepare h pid) k
  pub exact : Exact (region h pid) k
  pub frame : Frame (marked_all h) k

module _ {h : GcHeap} {pid : ℕ} {k : GcHeap} (f : Facts h pid k) where
  pub live_of_Reach : (p : Ptr) → Reach (region h pid) p → is_dead k p ≡ false
  live_of_Reach p w = let (i, b) = black_of_Reach f.marked w in rw b refl

  pub live-Reach :
      (p : Ptr) → p ∈ (partition_at h pid).nodes → is_dead k p ≡ false → Reach (region h pid) p
  live-Reach p i l =
      f.exact p i
        (ground (arith, f.marked.cycle.fits.protected p, f.marked.cycle.tricolor.rooted p))

  pub same_nodes : (i : ℕ) → (partition_at k i).nodes ≡ (partition_at h i).nodes
  same_nodes i = ground (arith, f.frame.pars i, marked_nodes h i)

  pub same_used : (i : ℕ) → (partition_at k i).memory_used ≡ (partition_at h i).memory_used
  same_used i = ground (arith, f.frame.pars i, marked_used h i)

  pub same_size :
      (ns : List Ptr) → total_size k.node_dtypes k.mem ns ≡ total_size h.node_dtypes h.mem ns
  same_size ns =
      rw f.frame.node_dtypes
        (total_size-same h.node_dtypes h.mem k.mem ns (λ p. (f.frame.heads p).dtype))

  -- The bytes of the dead and of the survivors.
  pub dead_size :
      IsAccounted h
      → total_size k.node_dtypes k.mem (live k pid) + size_of_dead k pid
        ≡ (partition_at h pid).memory_used
  dead_size a = omega (
    arith,
    total_size-keep k.node_dtypes k.mem (is_dead k) (partition_at k pid).nodes,
    same_size (partition_at k pid).nodes,
    ap (λ ns. total_size h.node_dtypes h.mem ns) (same_nodes pid),
    a.used pid,
  )

  pub mem_of_dead : (p : Ptr) → p ∈ dead k pid → p ∈ (partition_at h pid).nodes
  mem_of_dead p i =
      ground (arith, contains-keep (is_dead k) (partition_at k pid).nodes p, same_nodes pid)

  pub Swept-facts : IsReady h pid → IsSwept pid k (sweep_all k pid)
  Swept-facts v =
      let used = dead_size v.accounted in
      let size : size_of_dead k pid ≤ (partition_at h pid).memory_used = omega (arith, used) in
      IsSwept-sweep_all k pid f.marked.cycle.range f.marked.cycle.marking f.marked.empty
        (Charged-intro k.node_dtypes k.mem pid (dead k pid)
          (λ p i. f.marked.cycle.fits.owned p (mem_of_dead p i))
          (rw f.frame.node_dtypes v.registry.small))
        (λ p i.
          rw (f.frame.node_dtypes, (f.frame.heads p).dtype)
            (v.registry.passes (h.mem p).dtype (v.typed pid p (mem_of_dead p i))))
        (omega (arith, same_used pid))
        (omega
          (arith, f.frame.total_memory_used, used-le-sum_used h.partitions pid, v.accounted.total))

-- Enough rounds for every node of the chain to be blackened.
abbrev pub rounds : GcHeap → ℕ → ℕ
rounds h pid = suc (length (partition_at h pid).nodes)

pub garbage_collect-eq :
    (h : GcHeap) (pid : ℕ)
    → IsReady h pid
    → (k : GcHeap) × Facts h pid k × (garbage_collect (rounds h pid) h pid ≡ some (sweep_all k pid))
unfolding garbage_collect
garbage_collect-eq h pid v =
    let (k, e, m, x) = mark_until-ends h pid v.sound v.idle in
    let in_range : leb (length h.partitions) pid ≡ false = ground (arith, v.idle.range) in
    (
      k,
      record {
        marked = m;
        exact = x;
        frame = Frame-trans (Frame-mark_prepare h pid v.idle) m.frame;
      },
      rw (in_range, e, garbage_collect),
    )
