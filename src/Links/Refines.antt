-- ===== src/Links/Refines.antt =====
-- The walk of `sweep_unlink` refines the split of the partition's list of nodes.
use gc_lite.Base.{
  ℕ, ◌<◌, ◌≡◌, refl, sym, subst, not, [], Option, none, some, count, length, keep, arith,
  get_or-modify,
}
use gc_lite.Node.{Ptr}
use gc_lite.Heap.{GcHeap, partition_at, no_partition}
use gc_lite.Sweep.{is_dead, split_chain}
use gc_lite.Links.{Next, empty, Halves, split_loop}
use gc_lite.Links.Segments.{IsChain, EndsAt, Segment-EndsAt, count-keep-le}
use gc_lite.Links.Split.{split_loop-IsWalk}

nodes-split_chain :
    (h : GcHeap) (pid : ℕ)
    → pid < length h.partitions
    → (partition_at (split_chain h pid).0 pid).nodes
      ≡ keep (λ p. not (is_dead h p)) (partition_at h pid).nodes
unfolding split_chain
nodes-split_chain h pid lt = ground (
  arith,
  get_or-modify h.partitions pid pid
      (λ p. record p { nodes = keep (λ p. not (is_dead h p)) (partition_at h pid).nodes })
      no_partition,
)

-- Let the `next` fields in memory chain the nodes of a partition, each once, in the order of its list.
-- With more fuel than there are nodes, the walk of `sweep_unlink` ends. In the memory that it leaves,
-- the white list chains the nodes that the split of the partition's list takes out, and the list of
-- survivors chains the nodes that the split leaves in the partition, both in their order and each once.
pub split_loop-split_chain :
    (h : GcHeap) (pid : ℕ) (next : Next) (head : Option Ptr) (fuel : ℕ)
    → pid < length h.partitions
    → IsChain next head (partition_at h pid).nodes
    → length (partition_at h pid).nodes < fuel
    → (out : Halves) × (split_loop fuel
          (is_dead h)
          head
          (record { next = next; white = empty; survivors = empty })
        ≡ some out)
      × IsChain out.next out.white.head (split_chain h pid).1
      × IsChain out.next out.survivors.head (partition_at (split_chain h pid).0 pid).nodes
unfolding split_chain EndsAt count
split_loop-split_chain h pid next head fuel lt chain enough =
    let ns = (partition_at h pid).nodes in
    let (out, ran, w) =
      split_loop-IsWalk fuel (is_dead h) head [] [] ns
        (record { next = next; white = empty; survivors = empty }) enough
        (record {
          white = (refl, refl);
          survivors = (refl, refl);
          rest = chain.linked;
          once = λ q. omega (arith, chain.once q);
        }) in
    (
      out,
      ran,
      record {
        linked = Segment-EndsAt out.next out.white.head out.white.tail _ none w.white;
        once = λ q. omega (arith, chain.once q, count-keep-le (is_dead h) ns q);
      },
      subst (IsChain out.next out.survivors.head) (sym (nodes-split_chain h pid lt)) (record {
        linked = Segment-EndsAt out.next out.survivors.head out.survivors.tail _ none w.survivors;
        once = λ q. omega (arith, chain.once q, count-keep-le (λ p. not (is_dead h p)) ns q);
      }),
    )
