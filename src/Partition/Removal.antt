-- ===== src/Partition/Removal.antt =====
-- The accounts, the living nodes and the weak slots at the removal of a partition.
use gc_lite.Base.{
  ℕ, ◌+◌, ◌-◌, ◌≡◌, ◌<◌, refl, ◌∙◌, ap, sym, false, List, [], ◌∷◌, arith, ◌==◌, if◌then◌else◌,
  length, Bool-cases, inl, inr, get_or-modify, length-modify, ◌||◌, contains, contains-keep, not,
  ◌&&◌, ==_iff, modify,
}
use gc_lite.Node.{Ptr}
use gc_lite.Heap.{GcPartition, GcHeap, partition_at, no_partition}
use gc_lite.Mem.{clear_weak, forget, gross_size}
use gc_lite.Partition.{arena_of, dealloc_nodes, dealloc_partition, reset_partition}
use gc_lite.Mark.Cycle.{IsIdle}
use gc_lite.Sweep.Dispose.{total_size, slot_free_at, any_hits, slot_free-emptied}
use gc_lite.Sweep.Accounts.{IsAccounted, used-le-sum_used, sum_used-less}

-- What the loop leaves alone, and the bytes that it counts.
pub record Dealloced (ns : List Ptr) (h : GcHeap) (freed : ℕ) (r : GcHeap × ℕ) : Type 0 where
  pub mem : r.0.mem ≡ h.mem
  pub node_dtypes : r.0.node_dtypes ≡ h.node_dtypes
  pub partitions : r.0.partitions ≡ h.partitions
  pub total : r.0.total_memory_used ≡ h.total_memory_used
  pub living :
      (q : Ptr)
      → contains r.0.dbg_living_nodes q ≡ (contains h.dbg_living_nodes q && not (contains ns q))
  pub slots : (i : ℕ) → slot_free_at r.0 i ≡ (slot_free_at h i || any_hits h.mem ns i)
  pub bytes : r.1 ≡ freed + total_size h.node_dtypes h.mem ns

dealloc_nodes-Dealloced :
    (ns : List Ptr) (h : GcHeap) (freed : ℕ) → Dealloced ns h freed (dealloc_nodes ns h freed)
unfolding dealloc_nodes total_size any_hits
dealloc_nodes-Dealloced [] h freed = record {
  mem = refl;
  node_dtypes = refl;
  partitions = refl;
  total = refl;
  living = λ q. ground arith;
  slots = λ i. ground arith;
  bytes = omega arith;
}
dealloc_nodes-Dealloced (n ∷ ns) h freed =
    let r = dealloc_nodes-Dealloced ns (forget (clear_weak h n) n) (freed + gross_size h n) in
    record {
      mem = r.mem;
      node_dtypes = r.node_dtypes;
      partitions = r.partitions;
      total = r.total;
      living =
          λ q. ground (arith, r.living q, contains-keep (λ p. not (n == p)) h.dbg_living_nodes q);
      slots = λ i. ground (arith, r.slots i, slot_free-emptied h n i);
      bytes = omega (arith, r.bytes);
    }

module _ (base : ℕ) (h : GcHeap) (pid : ℕ) (lt : pid < length h.partitions) where
  link : List Ptr
  link = (partition_at h pid).nodes

  after : GcHeap
  after = (dealloc_partition base h pid link).0

  loop : Dealloced link h 0 (dealloc_nodes link h 0)
  loop = dealloc_nodes-Dealloced link h 0

  parts_eq : after.partitions ≡ modify h.partitions pid (reset_partition base)
  unfolding after dealloc_partition
  parts_eq = ap (λ (ps : List GcPartition). modify ps pid (reset_partition base)) loop.partitions

  at_after :
      (j : ℕ)
      → partition_at after j
        ≡ (if pid == j then reset_partition base (partition_at h j) else partition_at h j)
  at_after j =
      rw (parts_eq, get_or-modify h.partitions pid j (reset_partition base) no_partition)
        (ground arith)

  size_after :
      (ns : List Ptr)
      → total_size after.node_dtypes after.mem ns ≡ total_size h.node_dtypes h.mem ns
  unfolding after dealloc_partition
  size_after ns = rw (loop.mem, loop.node_dtypes) refl

  total_after : after.total_memory_used ≡ h.total_memory_used - (partition_at h pid).memory_used
  unfolding after dealloc_partition
  total_after = rw loop.total refl

  freed_eq : (dealloc_partition base h pid link).1 ≡ total_size h.node_dtypes h.mem link
  unfolding dealloc_partition
  freed_eq = omega (arith, loop.bytes)

  accounts : IsAccounted h → IsAccounted after
  unfolding total_size
  accounts a = record {
    used = λ j. elim (Bool-cases (pid == j)) [
      | inl same ↦ ground (arith, at_after j)
      | inr other ↦ rw (size_after (partition_at after j).nodes, at_after j, other) (a.used j)
    ];
    total = omega (
      arith,
      total_after,
      a.total,
      used-le-sum_used h.partitions pid,
      sum_used-less h.partitions after.partitions pid (partition_at h pid).memory_used
          (ap (λ (ps : List GcPartition). length ps) parts_eq
            ∙ length-modify h.partitions pid (reset_partition base))
          lt (ground (arith, at_after pid, ==_iff pid pid))
          (λ j ne. ground (arith, at_after j, ==_iff pid j)),
    );
  }

  IsIdle-after : IsIdle after pid
  IsIdle-after =
      let own = at_after pid in
      record {
        range =
            rw parts_eq (omega (arith, lt, length-modify h.partitions pid (reset_partition base)));
        idle = ground (arith, own, ==_iff pid pid);
        empty = ground (arith, own, ==_iff pid pid);
        unlisted = λ p m. ground (arith, own, m, ==_iff pid pid);
      }

  -- In a heap whose accounts are right, `dealloc_partition` with the chain of a partition of the heap
  -- reports the bytes that the partition counted, and the heap's account falls by them. Afterwards
  -- the partition has no nodes, is idle (no marking, no gray nodes) and has a fresh arena of its
  -- size, where it has one; the other partitions are as before; of the living nodes those of the
  -- chain are gone and no others; a weak slot holds no node if it held none before or a node of the
  -- chain has its id, and only then; and the accounts are right again.
  pub dealloc_partition-IsAccounted :
      IsAccounted h
      → let r = dealloc_partition base h pid (partition_at h pid).nodes in
        (r.1 ≡ (partition_at h pid).memory_used)
        × (r.1 + r.0.total_memory_used ≡ h.total_memory_used)
        × ((partition_at r.0 pid).nodes ≡ [])
        × IsIdle r.0 pid
        × ((partition_at r.0 pid).arena ≡ arena_of base (partition_at h pid).arena_capacity)
        × ((j : ℕ) → (pid == j) ≡ false → partition_at r.0 j ≡ partition_at h j)
        × ((q : Ptr)
            → contains r.0.dbg_living_nodes q
              ≡ (contains h.dbg_living_nodes q && not (contains (partition_at h pid).nodes q)))
        × ((i : ℕ)
            → slot_free_at r.0 i
              ≡ (slot_free_at h i || any_hits h.mem (partition_at h pid).nodes i))
        × IsAccounted r.0
  unfolding after link dealloc_partition
  dealloc_partition-IsAccounted a =
      let le = used-le-sum_used h.partitions pid in
      let own = at_after pid in
      (
        freed_eq ∙ sym (a.used pid),
        omega (arith, freed_eq, a.used pid, total_after, a.total, le),
        ground (arith, own, ==_iff pid pid),
        IsIdle-after,
        ground (arith, own, ==_iff pid pid),
        λ j ne. ground (arith, at_after j, ne),
        loop.living,
        loop.slots,
        accounts a,
      )
