-- ===== src/Barrier/Greyed.antt =====
-- Shading one node, address by address: what the barriers have in common.
use gc_lite.Base.{
  ℕ, ◌≡◌, ◌<◌, Bool, true, false, not, ◌&&◌, ◌||◌, arith, ◌==◌, if◌then◌else◌, contains, ◌∈◌,
  length, get_or-modify, ==_iff, inl, inr,
}
use gc_lite.Node.{gray, is_black, color_cases, Ptr}
use gc_lite.Heap.{GcHeap, partition_at, push_gray, no_partition, set_color}
use gc_lite.Mark.{enlist, partition_add_gray}
use gc_lite.Mark.Frame.{Frame, Frame-refl, Frame-trans, Frame-set_color}
use gc_lite.Mark.Seed.{Frame-enlist}
use gc_lite.Mark.Invariant.{Region, Tricolor}

-- `node` of partition `i` is gray if `hit` says so, and listed if `list` says so.
pub record Greyed (hit list : Bool) (i : ℕ) (node : Ptr) (h g : GcHeap) : Type 0 where
  pub color : (q : Ptr) → (g.mem q).color ≡ (if node == q && hit then gray else (h.mem q).color)
  pub flag : (q : Ptr) → (g.mem q).gray_listed ≡ ((h.mem q).gray_listed || (node == q && list))
  pub lists :
      (j : ℕ) (q : Ptr)
      → contains (partition_at g j).gray_list q ≡ (
          contains (partition_at h j).gray_list q
          || (i == j && node == q && list && not (h.mem node).gray_listed))
  pub frame : Frame h g

pub Greyed-none : (i : ℕ) (node : Ptr) (h : GcHeap) → Greyed false false i node h h
Greyed-none i node h = record {
  color = λ q. ground arith;
  flag = λ q. ground arith;
  lists = λ j q. ground arith;
  frame = Frame-refl h;
}

pub Greyed-color :
    (i : ℕ) (node : Ptr) (h : GcHeap) → Greyed true false i node h (set_color h node gray)
Greyed-color i node h = record {
  color = λ q. ground arith;
  flag = λ q. ground arith;
  lists = λ j q. ground arith;
  frame = Frame-set_color h node gray;
}

-- Shading and listing.
pub Greyed-enlist :
    (i : ℕ) (node : Ptr) (h : GcHeap)
    → i < length h.partitions
    → Greyed true true i node h (enlist (set_color h node gray) i node)
Greyed-enlist i node h lt = record {
  color = λ q. ground (arith, ==_iff node q);
  flag = λ q. ground (arith, ==_iff node q);
  lists = λ j q. ground (
    arith,
    get_or-modify h.partitions i j (push_gray node) no_partition,
    ==_iff i j,
    ==_iff node q,
  );
  frame = Frame-trans (Frame-set_color h node gray) (Frame-enlist (set_color h node gray) i node);
}

pub Greyed-trans :
    {a b c d : Bool} {i : ℕ} {node : Ptr} {h g k : GcHeap}
    → Greyed a b i node h g
    → Greyed c d i node g k
    → Greyed (a || c) (b || d) i node h k
Greyed-trans {node = node} s t = record {
  color = λ q. ground (arith, s.color q, t.color q);
  flag = λ q. ground (arith, s.flag q, t.flag q);
  lists = λ j q. ground (arith, s.lists j q, t.lists j q, s.flag node, ==_iff node node);
  frame = Frame-trans s.frame t.frame;
}

pub Greyed-partition_add_gray :
    (i : ℕ) (node : Ptr) (h : GcHeap)
    → i < length h.partitions
    → let open_ = not (is_black (h.mem node).color) in
      Greyed open_ open_ i node h (partition_add_gray h i node)
unfolding partition_add_gray
Greyed-partition_add_gray i node h lt = elim (color_cases (h.mem node).color) [
  | inl is ↦ rw (is, partition_add_gray) (Greyed-none i node h)
  | inr (inl is) ↦ rw (is, partition_add_gray) (Greyed-enlist i node h lt)
  | inr (inr is) ↦
      rw (is, partition_add_gray)
        (record {
          color = λ q. ground (arith, ==_iff node q);
          flag = λ q. ground (arith, ==_iff node q);
          lists = λ j q. ground (
            arith,
            get_or-modify h.partitions i j (push_gray node) no_partition,
            ==_iff i j,
            ==_iff node q,
          );
          frame = Frame-enlist h i node;
        })
]

-- The invariant survives, where a node of the partition that is shaded is listed.
pub Tricolor-Greyed :
    {r : Region} {hit list : Bool} {i : ℕ} {node : Ptr} {h g : GcHeap}
    → Greyed hit list i node h g
    → Tricolor r (partition_at h r.pid).gray_list h
    → (i ≡ r.pid → list ≡ true → node ∈ r.nodes)
    → (node ∈ r.nodes → hit ≡ true → (list ≡ true) × (i ≡ r.pid))
    → (node ∈ r.nodes → list ≡ true → i ≡ r.pid)
    → Tricolor r (partition_at g r.pid).gray_list g
Tricolor-Greyed {r} {i = i} {node} s v own listed there = record {
  inside = λ p m. ground (arith, s.lists r.pid p, v.inside p, own, ==_iff i r.pid, ==_iff node p);
  barrier = λ p q a b e c. ground (arith, s.color p, s.color q, v.barrier p q);
  listed = λ p m c. ground (
    arith,
    s.color p,
    s.lists r.pid p,
    v.listed p,
    v.flagged p,
    listed,
    ==_iff i r.pid,
    ==_iff node p,
  );
  rooted = λ p m c. ground (arith, s.color p, v.rooted p);
  flagged = λ p m c.
      ground (arith, s.flag p, s.lists r.pid p, v.flagged p, there, ==_iff i r.pid, ==_iff node p);
}
