-- ===== src/Sweep/Accounts.antt =====
-- Memory accounts: each partition counts the bytes of its chain, the heap counts all partitions.
use gc_lite.Base.{
  ℕ, zero, suc, ◌+◌, ◌≤◌, ◌<◌, ◌^◌, ◌≡◌, ◌≢◌, refl, Bool, not, List, [], ◌∷◌, arith, ◌∈◌, length,
  keep, get_or,
}
use gc_lite.Node.{GcHead, Ptr}
use gc_lite.Gctype.{GcTypeRegistry, type_info}
use gc_lite.Heap.{GcPartition, GcHeap, partition_at, no_partition}
use gc_lite.Sweep.Dispose.{total_size, Charged}

-- The bytes that the partitions count.
unfoldable pub sum_used : List GcPartition → ℕ
sum_used [] = 0
sum_used (p ∷ ps) = p.memory_used + sum_used ps

pub record IsAccounted (h : GcHeap) : Type 0 where
  pub used :
      (i : ℕ)
      → (partition_at h i).memory_used ≡ total_size h.node_dtypes h.mem (partition_at h i).nodes
  pub total : h.total_memory_used ≡ sum_used h.partitions

-- Every size fits an `i32`, and the passes of the registry cover its types, as the macro that makes
-- the table provides.
pub record IsRegistry (r : GcTypeRegistry) : Type 0 where
  pub small : (dtype : ℕ) → (type_info r dtype).layout_size < 2 ^ 31
  pub passes :
      (dtype : ℕ) → dtype < length r.type_info_list → (type_info r dtype).drop_pass ∈ r.drop_passes

-- The nodes in the chains have a registered type.
abbrev pub IsTyped : GcHeap → Type 0
IsTyped h =
    (i : ℕ) (p : Ptr)
    → p ∈ (partition_at h i).nodes
    → (h.mem p).dtype < length h.node_dtypes.type_info_list

pub used-le-sum_used :
    (ps : List GcPartition) (i : ℕ) → (get_or ps i no_partition).memory_used ≤ sum_used ps
unfolding sum_used
used-le-sum_used [] i = omega arith
used-le-sum_used (p ∷ ps) zero = omega arith
used-le-sum_used (p ∷ ps) (suc i) = omega (arith, used-le-sum_used ps i)

sum_used-same :
    (ps qs : List GcPartition)
    → length qs ≡ length ps
    → ((j : ℕ) → (get_or qs j no_partition).memory_used ≡ (get_or ps j no_partition).memory_used)
    → sum_used qs ≡ sum_used ps
unfolding sum_used
sum_used-same [] [] len same = refl
sum_used-same [] (q ∷ qs) len same = absurd (omega arith)
sum_used-same (p ∷ ps) [] len same = absurd (omega arith)
sum_used-same (p ∷ ps) (q ∷ qs) len same =
    omega (arith, same 0, sum_used-same ps qs (omega arith) (λ j. same (suc j)))

-- One partition gives back `size` bytes.
pub sum_used-less :
    (ps qs : List GcPartition) (pid size : ℕ)
    → length qs ≡ length ps
    → pid < length ps
    → (get_or qs pid no_partition).memory_used + size ≡ (get_or ps pid no_partition).memory_used
    → ((j : ℕ)
        → j ≢ pid
        → (get_or qs j no_partition).memory_used ≡ (get_or ps j no_partition).memory_used)
    → sum_used qs + size ≡ sum_used ps
unfolding sum_used
sum_used-less [] qs pid size len lt e same = absurd (omega arith)
sum_used-less (p ∷ ps) [] pid size len lt e same = absurd (omega arith)
sum_used-less (p ∷ ps) (q ∷ qs) zero size len lt e same =
    omega (arith, sum_used-same ps qs (omega arith) (λ j. same (suc j) (omega arith)))
sum_used-less (p ∷ ps) (q ∷ qs) (suc pid) size len lt e same = omega (
  arith,
  same 0 (omega arith),
  sum_used-less ps qs pid size (omega arith) (omega arith) e
      (λ j ne. same (suc j) (omega (arith, ne))),
)

pub total_size-same :
    (types : GcTypeRegistry) (m m' : Ptr → GcHead) (ns : List Ptr)
    → ((p : Ptr) → (m' p).dtype ≡ (m p).dtype)
    → total_size types m' ns ≡ total_size types m ns
unfolding total_size
total_size-same types m m' [] same = refl
total_size-same types m m' (n ∷ ns) same =
    ground (arith, same n, total_size-same types m m' ns same)

pub total_size-keep :
    (types : GcTypeRegistry) (mem : Ptr → GcHead) (p : Ptr → Bool) (ns : List Ptr)
    → total_size types mem (keep p ns) + total_size types mem (keep (λ n. not (p n)) ns)
      ≡ total_size types mem ns
unfolding total_size
total_size-keep types mem p [] = omega arith
total_size-keep types mem p (n ∷ ns) = ground (arith, total_size-keep types mem p ns)

pub Charged-intro :
    (types : GcTypeRegistry) (mem : Ptr → GcHead) (pid : ℕ) (ns : List Ptr)
    → ((p : Ptr) → p ∈ ns → (mem p).partition_id ≡ pid)
    → ((dtype : ℕ) → (type_info types dtype).layout_size < 2 ^ 31)
    → Charged types mem pid ns
Charged-intro types mem pid [] own small = tt
Charged-intro types mem pid (n ∷ ns) own small = (
  own n (ground arith),
  small (mem n).dtype,
  Charged-intro types mem pid ns (λ p i. own p (ground arith)) small,
)
