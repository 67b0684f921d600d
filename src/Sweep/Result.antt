-- ===== src/Sweep/Result.antt =====
-- The whole sweep of a partition whose marking has ended: `sweep_unlink`, the drops of payloads and
-- `sweep_dispose`.
use gc_lite.Base.{
  ℕ, ◌+◌, ◌≤◌, ◌<◌, ◌≡◌, ◌≢◌, refl, ◌∙◌, Bool, true, false, not, ◌&&◌, ◌||◌, List, [], ◌∷◌, arith,
  ◌==◌, if◌then◌else◌, ◌∈◌, ==_iff, Bool-cases, inl, inr, length, keep, get_or-modify,
  length-modify, none, some, leb, Option-cases,
}
use gc_lite.Node.{Ptr}
use gc_lite.Gctype.{type_info}
use gc_lite.Arena.{Hole}
use gc_lite.Heap.{GcPartition, GcHeap, partition_at, no_partition, modify_partition, set_marking}
use gc_lite.Mark.{is_empty}
use gc_lite.Sweep.{
  is_dead, Disposal, Collected, sweep_unlink, sweep_drop_payloads, dispose_passes, finish_arena,
  sweep_dispose, sweep_all,
}
use gc_lite.Sweep.Books.{Less}
use gc_lite.Sweep.Dispose.{total_size, any_hits, Charged, Swept, slot_free_at, Less-arena}
use gc_lite.Sweep.Passes.{dispose_passes_lem, nil_of_empty}

-- The nodes that the sweep takes out of the chain.
abbrev pub dead : GcHeap → ℕ → List Ptr
dead k pid = keep (is_dead k) (partition_at k pid).nodes

abbrev pub live : GcHeap → ℕ → List Ptr
live k pid = keep (λ n. not (is_dead k n)) (partition_at k pid).nodes

abbrev pub needs_drop : GcHeap → Ptr → Bool
needs_drop k n = (type_info k.node_dtypes (k.mem n).dtype).drop_fn

abbrev pub size_of_dead : GcHeap → ℕ → ℕ
size_of_dead k pid = total_size k.node_dtypes k.mem (dead k pid)

pub record IsSwept (pid : ℕ) (k : GcHeap) (c : Collected) : Type 0 where
  pub mem : c.heap.mem ≡ k.mem
  pub payload : c.heap.payload ≡ k.payload
  pub node_dtypes : c.heap.node_dtypes ≡ k.node_dtypes
  pub count : length c.heap.partitions ≡ length k.partitions
  pub nodes : (partition_at c.heap pid).nodes ≡ live k pid
  pub chains : (j : ℕ) → j ≢ pid → (partition_at c.heap j).nodes ≡ (partition_at k j).nodes
  pub marking : (partition_at c.heap pid).marking ≡ false
  pub gray_list : (partition_at c.heap pid).gray_list ≡ (partition_at k pid).gray_list
  pub used :
      (partition_at c.heap pid).memory_used + size_of_dead k pid ≡ (partition_at k pid).memory_used
  pub others :
      (j : ℕ) → j ≢ pid → (partition_at c.heap j).memory_used ≡ (partition_at k j).memory_used
  pub total : c.heap.total_memory_used + size_of_dead k pid ≡ k.total_memory_used
  pub freed : c.freed_bytes ≡ size_of_dead k pid
  pub dropped : c.dropped ≡ keep (needs_drop k) (dead k pid)
  pub slots : (i : ℕ) → slot_free_at c.heap i ≡ (slot_free_at k i || any_hits k.mem (dead k pid) i)

pub drop_payloads-keep :
    (k : GcHeap) (ns : List Ptr) → sweep_drop_payloads k ns ≡ keep (needs_drop k) ns
unfolding sweep_drop_payloads
drop_payloads-keep k [] = refl
drop_payloads-keep k (n ∷ ns) = ground (arith, drop_payloads-keep k ns)

-- The partition after the walk along its chain.
abbrev pub unlinked : GcHeap → ℕ → GcPartition → GcPartition
unlinked k pid p = record p { marking = false; nodes = live k pid }

module _ (k : GcHeap) (pid : ℕ) (range : pid < length k.partitions) where
  abbrev pub resting : GcHeap
  resting = modify_partition k pid (set_marking false)

  abbrev pub split : GcHeap
  split = modify_partition resting pid (λ p. record p { nodes = live k pid })

  pub at_split :
      (j : ℕ)
      → partition_at split j
        ≡ (if pid == j then unlinked k pid (partition_at k pid) else partition_at k j)
  at_split j = ground (
    arith,
    get_or-modify k.partitions pid j (set_marking false) no_partition,
    get_or-modify resting.partitions pid j (λ p. record p { nodes = live k pid }) no_partition,
    length-modify k.partitions pid (set_marking false),
    ==_iff pid j,
  )

  pub nodes_at_rest : (partition_at resting pid).nodes ≡ (partition_at k pid).nodes
  nodes_at_rest =
      ground (arith, get_or-modify k.partitions pid pid (set_marking false) no_partition)

  finish_arena-Less :
      {size : ℕ} {h g : GcHeap} (holes : List Hole)
      → Less pid size h g
      → Less pid size h (finish_arena pid holes g)
        × ((finish_arena pid holes g).weak_slots ≡ g.weak_slots)
  finish_arena-Less {g} holes l = elim (Option-cases (partition_at g pid).arena) [
    | inl none_ ↦ rw (none_, finish_arena) (l, refl)
    | inr (a, some_) ↦ rw (some_, finish_arena) (Less-arena _ l, refl)
  ]

  module _ (cycle : (partition_at k pid).marking ≡ true)
      (drained : (partition_at k pid).gray_list ≡ []) where
    in_range : leb (length k.partitions) pid ≡ false
    in_range = ground arith

    ready : ((partition_at k pid).marking && is_empty (partition_at k pid).gray_list) ≡ true
    ready = rw (cycle, drained)

    pub sweep_unlink-eq_empty :
        is_empty (partition_at k pid).nodes ≡ true → sweep_unlink k pid ≡ (resting, none)
    unfolding sweep_unlink
    sweep_unlink-eq_empty e = rw (in_range, ready, nodes_at_rest, e)

    pub sweep_unlink-eq :
        is_empty (partition_at k pid).nodes ≡ false
        → sweep_unlink k pid ≡ (split, some (dead k pid))
    unfolding sweep_unlink
    sweep_unlink-eq e = rw (in_range, ready, nodes_at_rest, e)

    sweep_all-eq_empty :
        is_empty (partition_at k pid).nodes ≡ true
        → sweep_all k pid ≡ record { heap = resting; freed_bytes = 0; dropped = [] }
    unfolding sweep_all
    sweep_all-eq_empty e = rw (sweep_unlink-eq_empty e, sweep_all) (rw (sweep_unlink-eq_empty e))

    sweep_all-eq :
        is_empty (partition_at k pid).nodes ≡ false
        → sweep_all k pid ≡ record {
          heap = (sweep_dispose split pid (dead k pid)).0;
          freed_bytes = (sweep_dispose split pid (dead k pid)).1;
          dropped = sweep_drop_payloads split (dead k pid);
        }
    unfolding sweep_all
    sweep_all-eq e = rw (sweep_unlink-eq e, sweep_all) (rw (sweep_unlink-eq e))

    module _ (charged : Charged k.node_dtypes k.mem pid (dead k pid))
        (covered : (n : Ptr)
          → n ∈ dead k pid
          → (type_info k.node_dtypes (k.mem n).dtype).drop_pass ∈ k.node_dtypes.drop_passes)
        (used : size_of_dead k pid ≤ (partition_at k pid).memory_used)
        (total : size_of_dead k pid ≤ k.total_memory_used) where
      start : Disposal
      start = record { heap = split; holes = []; freed_bytes = 0 }

      disposal : Disposal
      disposal = (dispose_passes pid k.node_dtypes.drop_passes (dead k pid) start).1

      swept : Swept pid (size_of_dead k pid) (dead k pid) start disposal
      unfolding start disposal
      swept =
          (dispose_passes_lem k.node_dtypes k.mem pid k.node_dtypes.drop_passes (dead k pid) start
            charged covered
            (record {
              mem_eq = refl;
              types_eq = refl;
              range = omega (
                arith,
                length-modify k.partitions pid (set_marking false),
                length-modify resting.partitions pid (λ p. record p { nodes = live k pid }),
              );
              used = ground (arith, at_split pid);
              total = total;
            })).1

      -- The list of the dead was not empty.
      IsSwept-split : IsSwept pid k (record {
        heap = (sweep_dispose split pid (dead k pid)).0;
        freed_bytes = (sweep_dispose split pid (dead k pid)).1;
        dropped = sweep_drop_payloads split (dead k pid);
      })
      unfolding sweep_dispose start disposal
      IsSwept-split =
          let (l, w) = finish_arena-Less disposal.holes swept.less in
          let b = l.books in
          record {
            mem = l.kept.mem;
            payload = l.kept.payload;
            node_dtypes = l.kept.node_dtypes;
            count =
                l.kept.count
                ∙ length-modify resting.partitions pid (λ p. record p { nodes = live k pid })
                ∙ length-modify k.partitions pid (set_marking false);
            nodes = ground (arith, l.kept.nodes pid, at_split pid);
            chains = λ j ne. ground (arith, l.kept.nodes j, at_split j);
            marking = ground (arith, l.kept.marking pid, at_split pid);
            gray_list = ground (arith, l.kept.gray_list pid, at_split pid);
            used = ground (arith, b.used, at_split pid);
            others = λ j ne. ground (arith, b.others j, at_split j);
            total = b.total;
            freed = omega (arith, swept.freed);
            dropped = drop_payloads-keep split (dead k pid);
            slots = λ i. rw w (swept.slots i);
          }

      -- The chain was empty.
      IsSwept-resting :
          (partition_at k pid).nodes ≡ []
          → IsSwept pid k (record { heap = resting; freed_bytes = 0; dropped = [] })
      unfolding total_size any_hits
      IsSwept-resting e =
          let at = λ (j : ℕ). get_or-modify k.partitions pid j (set_marking false) no_partition in
          let no_dead : dead k pid ≡ [] = rw e refl in
          record {
            mem = refl;
            payload = refl;
            node_dtypes = refl;
            count = length-modify k.partitions pid (set_marking false);
            nodes = rw e (ground (arith, at pid, e));
            chains = λ j ne. ground (arith, at j);
            marking = ground (arith, at pid);
            gray_list = ground (arith, at pid);
            used = rw no_dead (ground (arith, at pid));
            others = λ j ne. ground (arith, at j);
            total = rw no_dead (omega arith);
            freed = rw no_dead refl;
            dropped = rw no_dead refl;
            slots = λ i. rw no_dead (ground arith);
          }

      pub IsSwept-sweep_all : IsSwept pid k (sweep_all k pid)
      IsSwept-sweep_all = elim (Bool-cases (is_empty (partition_at k pid).nodes)) [
        | inl none_ ↦ rw (sweep_all-eq_empty none_) (IsSwept-resting (nil_of_empty _ none_))
        | inr some_ ↦ rw (sweep_all-eq some_) IsSwept-split
      ]
