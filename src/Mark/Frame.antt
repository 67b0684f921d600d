-- ===== src/Mark/Frame.antt =====
-- What marking leaves alone: it writes only colors, the listed flags and the gray lists.
use gc_lite.Base.{ℕ, ◌≡◌, refl, ◌∙◌, Bool, List, arith, length, get_or-modify, length-modify}
use gc_lite.Node.{GcTriColor, GcHead, Ptr}
use gc_lite.Heap.{
  GcPartition, GcHeap, partition_at, modify_partition, no_partition, set_color, set_gray_listed,
}

pub record SameHead (n m : GcHead) : Type 0 where
  pub dtype : m.dtype ≡ n.dtype
  pub arena_alloc : m.arena_alloc ≡ n.arena_alloc
  pub root : m.root ≡ n.root
  pub local : m.local ≡ n.local
  pub partition_id : m.partition_id ≡ n.partition_id
  pub weak_id : m.weak_id ≡ n.weak_id

pub record SamePartition (p q : GcPartition) : Type 0 where
  pub nodes : q.nodes ≡ p.nodes
  pub marking : q.marking ≡ p.marking
  pub memory_used : q.memory_used ≡ p.memory_used
  pub arena : q.arena ≡ p.arena

pub record Frame (h g : GcHeap) : Type 0 where
  pub heads : (q : Ptr) → SameHead (h.mem q) (g.mem q)
  pub pars : (i : ℕ) → SamePartition (partition_at h i) (partition_at g i)
  pub count : length g.partitions ≡ length h.partitions
  pub payload : g.payload ≡ h.payload
  pub node_dtypes : g.node_dtypes ≡ h.node_dtypes
  pub total_memory_used : g.total_memory_used ≡ h.total_memory_used
  pub weak_slots : g.weak_slots ≡ h.weak_slots
  pub scope_stacks : g.scope_stacks ≡ h.scope_stacks

pub Frame-refl : (h : GcHeap) → Frame h h
Frame-refl h = record {
  heads = λ q. ground arith;
  pars = λ i. ground arith;
  count = refl;
  payload = refl;
  node_dtypes = refl;
  total_memory_used = refl;
  weak_slots = refl;
  scope_stacks = refl;
}

pub Frame-trans : {h g k : GcHeap} → Frame h g → Frame g k → Frame h k
Frame-trans a b = record {
  heads = λ q. ground (arith, a.heads q, b.heads q);
  pars = λ i. ground (arith, a.pars i, b.pars i);
  count = b.count ∙ a.count;
  payload = b.payload ∙ a.payload;
  node_dtypes = b.node_dtypes ∙ a.node_dtypes;
  total_memory_used = b.total_memory_used ∙ a.total_memory_used;
  weak_slots = b.weak_slots ∙ a.weak_slots;
  scope_stacks = b.scope_stacks ∙ a.scope_stacks;
}

pub Frame-set_color : (h : GcHeap) (p : Ptr) (c : GcTriColor) → Frame h (set_color h p c)
Frame-set_color h p c = record {
  heads = λ q. ground arith;
  pars = λ i. ground arith;
  count = refl;
  payload = refl;
  node_dtypes = refl;
  total_memory_used = refl;
  weak_slots = refl;
  scope_stacks = refl;
}

pub Frame-set_gray_listed : (h : GcHeap) (p : Ptr) (b : Bool) → Frame h (set_gray_listed h p b)
Frame-set_gray_listed h p b = record {
  heads = λ q. ground arith;
  pars = λ i. ground arith;
  count = refl;
  payload = refl;
  node_dtypes = refl;
  total_memory_used = refl;
  weak_slots = refl;
  scope_stacks = refl;
}

-- A change of a gray list.
pub Frame-gray :
    (h : GcHeap) (i : ℕ) (f : List Ptr → List Ptr)
    → Frame h (modify_partition h i (λ p. record p { gray_list = f p.gray_list }))
Frame-gray h i f = record {
  heads = λ q. ground arith;
  pars = λ j. ground (
    arith,
    get_or-modify h.partitions i j (λ p. record p { gray_list = f p.gray_list }) no_partition,
  );
  count = length-modify h.partitions i _;
  payload = refl;
  node_dtypes = refl;
  total_memory_used = refl;
  weak_slots = refl;
  scope_stacks = refl;
}
