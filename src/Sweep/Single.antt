-- ===== src/Sweep/Single.antt =====
-- The deprecated `sweep` of src/mark_sweep.rs: one walk per pass over the whole chain, which drops
-- and disposes of each dead node on the spot. `on_dispose` sees the heap and changes nothing: it is
-- shown by the nodes that it is called with.
use gc_lite.Base.{ℕ, ◌+◌, false, ◌&&◌, List, [], ◌∷◌, ◌++◌, leb, ◌==◌, if◌then◌else◌, length}
use gc_lite.Node.{Ptr}
use gc_lite.Heap.{GcHeap, partition_at, modify_partition, set_marking}
use gc_lite.Mem.{dispose, gross_size}
use gc_lite.Mark.{is_empty}
use gc_lite.Sweep.{Disposal, Collected, is_dead, drop_pass, collect_node, finish_arena}

-- The variables of the loops, with the payloads that were dropped and the calls of `on_dispose`.
pub record Sweeping : Type 0 where
  pub disposal : Disposal
  pub dropped : List Ptr
  pub calls : List Ptr

unfoldable pub sweep_node : ℕ → Ptr → Sweeping → Sweeping
unfolding dispose collect_node
sweep_node pid n s =
    let d = s.disposal in
    let r = dispose d.heap n in
    let d' = record d { heap = r.0; freed_bytes = d.freed_bytes + r.1 } in
    record {
      disposal =
          if (d.heap.mem n).arena_alloc then collect_node pid n (gross_size d.heap n) d' else d';
      dropped = s.dropped ++ r.2;
      calls = s.calls ++ (n ∷ []);
    }

-- One pass over the chain: what stays in it, and the state.
unfoldable pub sweep_pass : ℕ → ℕ → List Ptr → Sweeping → List Ptr × Sweeping
unfolding sweep_node
sweep_pass pid pass [] s = ([], s)
sweep_pass pid pass (n ∷ rest) s =
    let goes = drop_pass s.disposal.heap n == pass && is_dead s.disposal.heap n in
    let r = sweep_pass pid pass rest (if goes then sweep_node pid n s else s) in
    (if goes then r.0 else n ∷ r.0, r.1)

unfoldable pub sweep_passes : ℕ → List ℕ → List Ptr → Sweeping → List Ptr × Sweeping
unfolding sweep_pass
sweep_passes pid [] link s = (link, s)
sweep_passes pid (pass ∷ passes) link s =
    let r = sweep_pass pid pass link s in
    let next = sweep_passes pid passes r.0 r.1 in if is_empty r.0 then r else next

-- The chain is taken from the partition, and what is left of it put back.
unfoldable pub sweep_link : GcHeap → ℕ → List Ptr → Collected
unfolding sweep_passes
sweep_link h pid link0 =
    let taken = modify_partition h pid (λ p. record p { nodes = [] }) in
    let start : Sweeping = record {
      disposal = record { heap = taken; holes = []; freed_bytes = 0 };
      dropped = [];
      calls = [];
    } in
    let r = sweep_passes pid h.node_dtypes.drop_passes link0 start in
    let d = r.1.disposal in
    let swept = finish_arena pid d.holes d.heap in
    record {
      heap =
          if is_empty r.0
          then swept
          else modify_partition swept pid (λ p. record p { nodes = r.0 });
      freed_bytes = d.freed_bytes;
      dropped = r.1.dropped;
    }

unfoldable pub sweep : GcHeap → ℕ → Collected
unfolding sweep_link
sweep h pid =
    let nothing : GcHeap → Collected = λ g. record { heap = g; freed_bytes = 0; dropped = [] } in
    if leb (length h.partitions) pid
    then nothing h
    else if (partition_at h pid).marking && is_empty (partition_at h pid).gray_list
    then (let h1 = modify_partition h pid (set_marking false) in
        let link0 = (partition_at h1 pid).nodes in
        if is_empty link0 then nothing h1 else sweep_link h1 pid link0)
    else nothing h
