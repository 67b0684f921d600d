-- ===== src/Sweep/Books.antt =====
-- What disposing of nodes does to the accounts, to the weak slots and to the rest of the heap.
use gc_lite.Base.{
  ℕ, zero, suc, ◌+◌, ◌-◌, ◌≤◌, ◌<◌, ◌^◌, ◌≡◌, ◌≢◌, refl, ◌∙◌, List, arith, if◌then◌else◌, length,
  get_or-modify, length-modify, Option,
}
use gc_lite.Base.Int.{pos, neg, as_i32}
use gc_lite.Node.{Ptr}
use gc_lite.Heap.{GcPartition, GcHeap, partition_at, no_partition, modify_partition}
use gc_lite.Weak.{is_null, index, clear_slot}
use gc_lite.Mem.{update_mem_use, dispose_no_drop, dispose_mem_only, gross_size, forget, clear_weak}

-- Headers, chains, gray lists and marking stay.
pub record Kept (h g : GcHeap) : Type 0 where
  pub mem : g.mem ≡ h.mem
  pub payload : g.payload ≡ h.payload
  pub node_dtypes : g.node_dtypes ≡ h.node_dtypes
  pub count : length g.partitions ≡ length h.partitions
  pub nodes : (i : ℕ) → (partition_at g i).nodes ≡ (partition_at h i).nodes
  pub gray_list : (i : ℕ) → (partition_at g i).gray_list ≡ (partition_at h i).gray_list
  pub marking : (i : ℕ) → (partition_at g i).marking ≡ (partition_at h i).marking

pub Kept-refl : (h : GcHeap) → Kept h h
Kept-refl h = record {
  mem = refl;
  payload = refl;
  node_dtypes = refl;
  count = refl;
  nodes = λ i. refl;
  gray_list = λ i. refl;
  marking = λ i. refl;
}

pub Kept-trans : {h g k : GcHeap} → Kept h g → Kept g k → Kept h k
Kept-trans a b = record {
  mem = b.mem ∙ a.mem;
  payload = b.payload ∙ a.payload;
  node_dtypes = b.node_dtypes ∙ a.node_dtypes;
  count = b.count ∙ a.count;
  nodes = λ i. b.nodes i ∙ a.nodes i;
  gray_list = λ i. b.gray_list i ∙ a.gray_list i;
  marking = λ i. b.marking i ∙ a.marking i;
}

-- A change of one partition that keeps those fields.
pub Kept-modify :
    (h : GcHeap) (i : ℕ) (f : GcPartition → GcPartition)
    → ((p : GcPartition)
        → ((f p).nodes ≡ p.nodes) × ((f p).gray_list ≡ p.gray_list) × ((f p).marking ≡ p.marking))
    → Kept h (modify_partition h i f)
Kept-modify h i f same = record {
  mem = refl;
  payload = refl;
  node_dtypes = refl;
  count = length-modify h.partitions i f;
  nodes =
      λ j. ground (arith, get_or-modify h.partitions i j f no_partition, same (partition_at h j));
  gray_list =
      λ j. ground (arith, get_or-modify h.partitions i j f no_partition, same (partition_at h j));
  marking =
      λ j. ground (arith, get_or-modify h.partitions i j f no_partition, same (partition_at h j));
}

-- The accounts of a partition and of the heap, and the weak slots, before and after.
pub record Books (pid size : ℕ) (h g : GcHeap) : Type 0 where
  pub used : (partition_at g pid).memory_used + size ≡ (partition_at h pid).memory_used
  pub others : (j : ℕ) → j ≢ pid → (partition_at g j).memory_used ≡ (partition_at h j).memory_used
  pub total : g.total_memory_used + size ≡ h.total_memory_used

as_i32-small : (n : ℕ) → n < 2 ^ 31 → as_i32 n ≡ pos n
as_i32-small n lt = ground arith

-- Replacing the two counters.
abbrev recount : GcHeap → ℕ → (ℕ → ℕ) → GcHeap
recount h pid f =
    let h' = modify_partition h pid (λ p. record p { memory_used = f p.memory_used }) in
    record h' { total_memory_used = f h'.total_memory_used }

Kept-recount : (h : GcHeap) (pid : ℕ) (f : ℕ → ℕ) → Kept h (recount h pid f)
Kept-recount h pid f =
    let k =
      Kept-modify h pid (λ p. record p { memory_used = f p.memory_used })
        (λ p. (refl, refl, refl)) in
    record {
      mem = refl;
      payload = refl;
      node_dtypes = refl;
      count = k.count;
      nodes = k.nodes;
      gray_list = k.gray_list;
      marking = k.marking;
    }

Books-recount :
    (h : GcHeap) (pid size : ℕ) (f : ℕ → ℕ)
    → pid < length h.partitions
    → f (partition_at h pid).memory_used + size ≡ (partition_at h pid).memory_used
    → f h.total_memory_used + size ≡ h.total_memory_used
    → Books pid size h (recount h pid f)
Books-recount h pid size f range used total =
    let at = λ (j : ℕ).
      get_or-modify h.partitions pid j (λ p. record p { memory_used = f p.memory_used })
        no_partition in
    record { used = ground (arith, at pid); others = λ j ne. ground (arith, at j); total = total }

-- What is left of `h` when a node of `size` bytes is gone.
pub record Less (pid size : ℕ) (h g : GcHeap) : Type 0 where
  pub kept : Kept h g
  pub books : Books pid size h g

give_back :
    (h : GcHeap) (pid size : ℕ)
    → size < 2 ^ 31
    → pid < length h.partitions
    → size ≤ (partition_at h pid).memory_used
    → size ≤ h.total_memory_used
    → Less pid size h (update_mem_use h pid (neg (pos size)))
      × ((update_mem_use h pid (neg (pos size))).weak_slots ≡ h.weak_slots)
unfolding update_mem_use
give_back h pid zero lt range le le' = (
  record {
    kept = Kept-recount h pid (λ m. m + 0);
    books = Books-recount h pid 0 (λ m. m + 0) range (omega arith) (omega arith);
  },
  refl,
)
give_back h pid (suc n) lt range le le' = (
  record {
    kept = Kept-recount h pid (λ m. m - suc n);
    books = Books-recount h pid (suc n) (λ m. m - suc n) range (omega arith) (omega arith);
  },
  refl,
)

abbrev pub emptied : GcHeap → Ptr → List (ℕ × Option Ptr)
emptied h n =
    if is_null (h.mem n).weak_id
    then h.weak_slots
    else clear_slot h.weak_slots (index (h.mem n).weak_id)

-- One node: its bytes leave both accounts, its weak slot is emptied.
pub dispose_no_drop-Less :
    (h : GcHeap) (pid : ℕ) (n : Ptr)
    → (h.mem n).partition_id ≡ pid
    → gross_size h n < 2 ^ 31
    → pid < length h.partitions
    → gross_size h n ≤ (partition_at h pid).memory_used
    → gross_size h n ≤ h.total_memory_used
    → Less pid (gross_size h n) h (dispose_no_drop h n).0
      × ((dispose_no_drop h n).0.weak_slots ≡ emptied h n)
      × ((dispose_no_drop h n).1 ≡ gross_size h n)
unfolding dispose_no_drop dispose_mem_only
dispose_no_drop-Less h pid n own small range le le' =
    let h1 = forget (clear_weak h n) n in
    let (l, w) = give_back h1 pid (gross_size h n) small range le le' in
    rw (own, as_i32-small (gross_size h n) small)
      (
        record {
          kept = Kept-trans (same h1) l.kept;
          books = record { used = l.books.used; others = l.books.others; total = l.books.total };
        },
        w,
        refl,
      )
  where
    same :
        (g : GcHeap)
        → Kept h (record h { weak_slots = g.weak_slots; dbg_living_nodes = g.dbg_living_nodes })
    same g = record {
      mem = refl;
      payload = refl;
      node_dtypes = refl;
      count = refl;
      nodes = λ i. refl;
      gray_list = λ i. refl;
      marking = λ i. refl;
    }
