-- ===== src/Tests/Sample.antt =====
-- A heap of two partitions, as the tests use it: in the first a root that refers to a node, and a node
-- that nothing refers to; in the second a root that refers to both of those.
use gc_lite.Base.{
  ℕ, zero, suc, ◌<◌, ◌^◌, ◌≡◌, refl, Bool, true, false, List, [], ◌∷◌, arith, ◌==◌, if◌then◌else◌,
  ◌∈◌, none, some, ==_iff,
}
use gc_lite.Node.{white, GcHead, Ptr}
use gc_lite.Gctype.{GcTypeInfo, GcTypeRegistry, type_info}
use gc_lite.Heap.{GcPartition, GcHeap, partition_at}
use gc_lite.Sweep.Dispose.{total_size}
use gc_lite.Sweep.Accounts.{IsAccounted, IsTyped, sum_used}
use gc_lite.Sweep.Facts.{IsReady}

abbrev pub sample_type : GcTypeInfo
sample_type = record {
  size = 8;
  payload_offset = 24;
  layout_size = 32;
  layout_align = 8;
  drop_fn = true;
  drop_pass = 0;
}

abbrev pub sample_registry : GcTypeRegistry
sample_registry = record { type_info_list = sample_type ∷ []; drop_passes = 0 ∷ [] }

abbrev pub sample_partition : List Ptr → ℕ → GcPartition
sample_partition nodes used = record {
  nodes = nodes;
  gray_list = [];
  marking = false;
  memory_used = used;
  arena = none;
  arena_capacity = 0;
  arena_max_alloc = 0;
}

abbrev pub sample_head : Bool → ℕ → ℕ → GcHead
sample_head root pid weak_id = record {
  dtype = 0;
  color = white;
  arena_alloc = false;
  gray_listed = false;
  root = root;
  local = false;
  traverse_visited = false;
  partition_id = pid;
  weak_id = weak_id;
}

-- Nodes 1, 2 and 3 in the first partition, 4 in the second; node 3 has the weak id of slot 0.
abbrev pub sample_mem : Ptr → GcHead
sample_mem p =
    if p == 1
    then sample_head true 0 0
    else if p == 3
    then sample_head false 0 1
    else if p == 4
    then sample_head true 1 0
    else sample_head false 0 0

abbrev pub sample_payload : Ptr → List Ptr
sample_payload p =
    if p == 1 then 2 ∷ [] else if p == 3 then 1 ∷ [] else if p == 4 then 2 ∷ 3 ∷ [] else []

abbrev pub sample : GcHeap
sample = record {
  node_dtypes = sample_registry;
  partitions = sample_partition (1 ∷ 2 ∷ 3 ∷ []) 96 ∷ sample_partition (4 ∷ []) 32 ∷ [];
  memory_limit = 0;
  gc_threshold = 0;
  total_memory_used = 128;
  weak_slots = (1, some 3) ∷ [];
  scope_stacks = [];
  mem = sample_mem;
  payload = sample_payload;
  dbg_living_nodes = 4 ∷ 3 ∷ 2 ∷ 1 ∷ [];
}

sample_owned :
    (i : ℕ) (p : Ptr) → p ∈ (partition_at sample i).nodes → (sample_mem p).partition_id ≡ i
sample_owned zero p m = ground arith
sample_owned (suc zero) p m = ground arith
sample_owned (suc (suc i)) p m = cc

sample_closed :
    (p q : Ptr)
    → p ∈ (partition_at sample (sample_mem p).partition_id).nodes
    → q ∈ sample_payload p
    → q ∈ (partition_at sample (sample_mem q).partition_id).nodes
sample_closed p q m e = ground (arith, ==_iff 3 q, ==_iff 2 q, ==_iff 1 q)

sample-IsAccounted : IsAccounted sample
unfolding total_size sum_used
sample-IsAccounted = record {
  used = elim [ zero ↦ refl | suc zero ↦ refl | suc (suc i) ↦ refl ];
  total = refl;
}

sample_small : (dtype : ℕ) → (type_info sample_registry dtype).layout_size < 2 ^ 31
sample_small zero = omega arith
sample_small (suc d) = omega arith

sample_passes : (dtype : ℕ) → dtype < 1 → (type_info sample_registry dtype).drop_pass ∈ (0 ∷ [])
sample_passes zero lt = refl
sample_passes (suc d) lt = absurd (omega arith)

sample-IsTyped : IsTyped sample
sample-IsTyped i p m = ground arith

pub sample-IsReady : IsReady sample 0
sample-IsReady = record {
  sound = record { owned = sample_owned; closed = sample_closed };
  idle = record { range = omega arith; idle = refl; empty = refl; unlisted = λ p m. ground arith };
  accounted = sample-IsAccounted;
  registry = record { small = sample_small; passes = sample_passes };
  typed = sample-IsTyped;
}
