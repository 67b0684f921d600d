-- ===== src/Sweep/Dangling.antt =====
-- References from other partitions: the collection of one partition does not read them.
use gc_lite.Base.{ℕ, ◌≢◌, ◌∙◌, sym, contains, ◌∈◌, ◌∉◌, Bool-cases, inl, inr, subst, List}
use gc_lite.Node.{Ptr}
use gc_lite.Heap.{GcHeap, partition_at}
use gc_lite.Mark.Invariant.{Reach}
use gc_lite.Mark.Cycle.{region}
use gc_lite.Sweep.{sweep_all}
use gc_lite.Sweep.Facts.{IsReady, same_nodes}
use gc_lite.Sweep.Collect.{Collects, chain, collects, chain_iff}

-- In a heap between collections (chains and references are sound, the partition is idle, the
-- accounts are right, each size is below 2^31, the drop passes cover the types), take a node `q` of
-- the partition that no path inside the partition joins to a root or local node of it, and a node
-- `p` of another partition, a root or not, that refers to `q`. `garbage_collect` ends, `q` has left
-- the chain, and `p` is still in its chain and refers to `q`.
pub garbage_collect-dangles :
    (h : GcHeap) (pid j : ℕ) (p q : Ptr)
    → IsReady h pid
    → j ≢ pid
    → p ∈ (partition_at h j).nodes
    → q ∈ h.payload p
    → ¬ Reach (region h pid) q
    → Collects (λ c. (q ∉ chain c pid) × (p ∈ chain c j) × (q ∈ c.heap.payload p)) h pid
garbage_collect-dangles h pid j p q v ne at refers unreached =
    collects h pid v (λ c. (q ∉ chain c pid) × (p ∈ chain c j) × (q ∈ c.heap.payload p))
      (λ k f s. (
        elim (Bool-cases (contains (chain (sweep_all k pid) pid) q)) [
          | inl there ↦ absurd (unreached ((chain_iff h pid v k f (sweep_all k pid) s q).0 there))
          | inr gone ↦ gone
        ],
        subst (λ (ns : List Ptr). p ∈ ns) (sym (s.chains j ne ∙ same_nodes f j)) at,
        subst (λ (l : Ptr → List Ptr). q ∈ l p) (sym (s.payload ∙ f.frame.payload)) refers,
      ))
