-- ===== src/Mark/Cycle.antt =====
-- A marking cycle of one partition: `mark_prepare`, bounded steps of `mark`, and the loop of
-- `garbage_collect` that marks to the end.
use gc_lite.Base.{
  ℕ, zero, suc, ◌<◌, ◌≡◌, refl, ◌∙◌, Bool, true, false, [], arith, ◌∈◌, Bool-cases, inl, inr,
  length, some,
}
use gc_lite.Node.{black, Ptr, is_root_or_local}
use gc_lite.Heap.{GcHeap, partition_at}
use gc_lite.Mark.{mark_all, seed_partitions, mark_prepare, mark_loop, mark_grays, mark, mark_until}
use gc_lite.Mark.Frame.{Frame, Frame-trans}
use gc_lite.Mark.Invariant.{Region, Reach, base, step, Fits, Tricolor, Exact, Fits-Frame}
use gc_lite.Mark.Loop.{pending, pending-le-length, Left, Left-mark_loop}
use gc_lite.Mark.Prepare.{
  Owned, Started, Started-seed_partitions, Frame-seed_partitions, get_or-mark_all, length-mark_all,
  get_or-past,
}

abbrev pub region : GcHeap → ℕ → Region
region h pid = record {
  pid = pid;
  nodes = (partition_at h pid).nodes;
  edges = h.payload;
  protected = λ p. is_root_or_local (h.mem p);
}

-- A heap whose chains and references are sound: a header names the partition whose chain its node
-- is in, and a referenced node stands in the chain that its header names.
pub record IsSound (h : GcHeap) : Type 0 where
  pub owned : Owned h
  pub closed :
      (p q : Ptr)
      → p ∈ (partition_at h (h.mem p).partition_id).nodes
      → q ∈ h.payload p
      → q ∈ (partition_at h (h.mem q).partition_id).nodes

-- The partition is idle: no cycle runs, and no gray node and no flag is left from one.
pub record IsIdle (h : GcHeap) (pid : ℕ) : Type 0 where
  pub range : pid < length h.partitions
  pub idle : (partition_at h pid).marking ≡ false
  pub empty : (partition_at h pid).gray_list ≡ []
  pub unlisted : (p : Ptr) → p ∈ (partition_at h pid).nodes → (h.mem p).gray_listed ≡ false

-- The partition `r` in a marking cycle.
pub record IsMarking (r : Region) (h : GcHeap) : Type 0 where
  pub range : r.pid < length h.partitions
  pub marking : (partition_at h r.pid).marking ≡ true
  pub nodes : (partition_at h r.pid).nodes ≡ r.nodes
  pub fits : Fits r h
  pub tricolor : Tricolor r (partition_at h r.pid).gray_list h

abbrev pub marked_all : GcHeap → GcHeap
marked_all h = record h { partitions = mark_all h.partitions }

pub mark_prepare-eq :
    (h : GcHeap) (pid : ℕ)
    → IsIdle h pid
    → mark_prepare h pid ≡ seed_partitions (length h.partitions) 0 (marked_all h)
unfolding mark_prepare
mark_prepare-eq h pid i = ground arith

-- What `mark_prepare` leaves alone.
pub Frame-mark_prepare :
    (h : GcHeap) (pid : ℕ) → IsIdle h pid → Frame (marked_all h) (mark_prepare h pid)
Frame-mark_prepare h pid i =
    rw (mark_prepare-eq h pid i) (Frame-seed_partitions (length h.partitions) 0 (marked_all h))

marked_at :
    (h : GcHeap) (i : ℕ)
    → i < length h.partitions
    → partition_at (marked_all h) i ≡ record (partition_at h i) { marking = true }
marked_at h i lt = ground (arith, get_or-mark_all h.partitions i)

pub marked_nodes :
    (h : GcHeap) (i : ℕ) → (partition_at (marked_all h) i).nodes ≡ (partition_at h i).nodes
marked_nodes h i = ground (arith, get_or-mark_all h.partitions i, get_or-past h.partitions i)

pub marked_used :
    (h : GcHeap) (i : ℕ)
    → (partition_at (marked_all h) i).memory_used ≡ (partition_at h i).memory_used
marked_used h i = ground (arith, get_or-mark_all h.partitions i, get_or-past h.partitions i)

Fits-region : (h : GcHeap) (pid : ℕ) → IsSound h → Fits (region h pid) (marked_all h)
Fits-region h pid s = record {
  edges = λ p. refl;
  protected = λ p. refl;
  owned = λ p i. s.owned pid p i;
  closed = λ p q i e o. ground (arith, s.owned pid p i, s.closed p q);
}

-- A cycle begins with the invariant, and with nothing shaded but what is reachable.
pub mark_prepare-IsMarking :
    (h : GcHeap) (pid : ℕ)
    → IsSound h
    → IsIdle h pid
    → IsMarking (region h pid) (mark_prepare h pid) × Exact (region h pid) (mark_prepare h pid)
mark_prepare-IsMarking h pid s i =
    let r = region h pid in
    let h1 = marked_all h in
    let f = Frame-mark_prepare h pid i in
    let at = marked_at h pid i.range in
    let count = length-mark_all h.partitions in
    let started : Started r (mark_prepare h pid) = rw (mark_prepare-eq h pid i) (
      Started-seed_partitions r (length h.partitions) 0 h1 (omega arith) (omega (arith, i.range))
        (omega (arith, count, i.range)) (marked_nodes h pid)
        (λ j p m. s.owned j p (rw (marked_nodes h j) at m)) (Fits-region h pid s)
        (ground (arith, at, i.empty)) i.unlisted) in
    (
      record {
        range = omega (arith, f.count, count, i.range);
        marking = ground (arith, f.pars pid, at);
        nodes = ground (arith, f.pars pid, at);
        fits = Fits-Frame f (Fits-region h pid s);
        tricolor = started.tricolor;
      },
      started.exact,
    )

module _ {r : Region} where
  -- In a cycle `mark_prepare` does nothing, so a step of `mark` is the loop.
  mark_prepare-eq_self : (h : GcHeap) → IsMarking r h → mark_prepare h r.pid ≡ h
  unfolding mark_prepare
  mark_prepare-eq_self h m = ground (arith, m.range, m.marking)

  mark-eq-mark_loop :
      (h : GcHeap) (n : ℕ)
      → IsMarking r h
      → mark h r.pid (suc n) ≡ mark_loop (suc n) (partition_at h r.pid).gray_list r.pid h
  unfolding mark mark_grays
  mark-eq-mark_loop h n m = rw (mark_prepare-eq_self h m) (ground arith)

  pub Left-mark : (h : GcHeap) (n : ℕ) → IsMarking r h → Left r (suc n) h (mark h r.pid (suc n))
  Left-mark h n m =
      rw (mark-eq-mark_loop h n m)
        (Left-mark_loop (suc n) (partition_at h r.pid).gray_list h m.range m.fits m.tricolor)

  Left-IsMarking :
      {n : ℕ} {h : GcHeap} {out : Bool × GcHeap}
      → IsMarking r h
      → Left r n h out
      → IsMarking r out.1
  Left-IsMarking m l = record {
    range = omega (arith, l.frame.count, m.range);
    marking = ground (arith, l.frame.pars r.pid, m.marking);
    nodes = ground (arith, l.frame.pars r.pid, m.nodes);
    fits = Fits-Frame l.frame m.fits;
    tricolor = l.tricolor;
  }

-- The partition at the end of its marking.
pub record IsMarked (r : Region) (h k : GcHeap) : Type 0 where
  pub cycle : IsMarking r k
  pub empty : (partition_at k r.pid).gray_list ≡ []
  pub frame : Frame h k
  pub exact : Exact r h → Exact r k

module _ {r : Region} where
  -- Each call that stops early has blackened 64 nodes, so the fuel covers them all.
  pub mark_until-IsMarked :
      (fuel : ℕ) (h : GcHeap)
      → IsMarking r h
      → pending r.nodes h < fuel
      → (k : GcHeap) × (mark_until fuel h r.pid ≡ some k) × IsMarked r h k
  unfolding mark_until
  mark_until-IsMarked zero h m lt = absurd (omega arith)
  mark_until-IsMarked (suc fuel) h m lt =
      let l : Left r 64 h (mark h r.pid 64) = Left-mark h 63 m in
      let m' = Left-IsMarking m l in
      elim (Bool-cases (mark h r.pid 64).0) [
        | inl done ↦ (
          (mark h r.pid 64).1,
          rw done,
          record { cycle = m'; empty = l.done done; frame = l.frame; exact = l.exact },
        )
        | inr more ↦
            let (k, e, v) =
              mark_until-IsMarked fuel (mark h r.pid 64).1 m' (omega (arith, l.rounds more)) in
            (
              k,
              rw more e,
              record {
                cycle = v.cycle;
                empty = v.empty;
                frame = Frame-trans l.frame v.frame;
                exact = λ x. v.exact (l.exact x);
              },
            )
      ]

  -- At the end of marking a reachable node is black.
  pub black_of_Reach :
      {h k : GcHeap} {p : Ptr}
      → IsMarked r h k
      → Reach r p
      → (p ∈ r.nodes) × ((k.mem p).color ≡ black)
  black_of_Reach {k} v (base p i prot) =
      let t : Tricolor r [] k = rw v.empty at v.cycle.tricolor in
      (i, ground (arith, t.rooted p, t.listed p))
  black_of_Reach {k} v (step {p} q w e i) =
      let t : Tricolor r [] k = rw v.empty at v.cycle.tricolor in
      let (j, b) = black_of_Reach v w in (i, ground (arith, t.barrier p q, t.listed q))

mark_until-prepare :
    (fuel : ℕ) (h : GcHeap) (pid : ℕ)
    → IsMarking (region h pid) (mark_prepare h pid)
    → mark_until (suc fuel) h pid ≡ mark_until (suc fuel) (mark_prepare h pid) pid
unfolding mark_until mark
mark_until-prepare fuel h pid m = rw (mark_prepare-eq_self (mark_prepare h pid) m)

-- From an idle partition the loop of `garbage_collect` ends, and it has marked the reachable nodes.
pub mark_until-ends :
    (h : GcHeap) (pid : ℕ)
    → IsSound h
    → IsIdle h pid
    → (k : GcHeap) × (mark_until (suc (length (partition_at h pid).nodes)) h pid ≡ some k)
      × IsMarked (region h pid) (mark_prepare h pid) k
      × Exact (region h pid) k
mark_until-ends h pid s i =
    let (m, x) = mark_prepare-IsMarking h pid s i in
    let ns = (partition_at h pid).nodes in
    let (k, e, v) =
      mark_until-IsMarked (suc (length ns)) (mark_prepare h pid) m
        (omega (arith, pending-le-length ns (mark_prepare h pid))) in
    (k, mark_until-prepare (length ns) h pid m ∙ e, v, v.exact x)
