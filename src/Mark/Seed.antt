-- ===== src/Mark/Seed.antt =====
-- The rounds of `mark_prepare`: seeding one partition, and what that leaves of the others.
use gc_lite.Base.{
  ℕ, ◌<◌, ◌≡◌, ◌≢◌, refl, ◌∙◌, ap, Bool, true, false, ◌&&◌, ◌||◌, List, [], ◌∷◌, arith,
  if◌then◌else◌, contains, ◌∉◌, ==_iff, Bool-cases, inl, inr, length, get_or-modify,
}
use gc_lite.Node.{white, gray, Ptr, is_root_or_local}
use gc_lite.Heap.{
  GcHeap, set_color, set_gray_listed, partition_at, no_partition, modify_partition, push_gray,
}
use gc_lite.Mark.{
  enlist, seed_node, seed_nodes, relist_node, relist_nodes, seed_partition, is_empty,
}
use gc_lite.Mark.Frame.{
  Frame, Frame-refl, Frame-trans, Frame-set_color, Frame-set_gray_listed, Frame-gray,
}

pub Frame-seed_node :
    (pending : Bool) (i : ℕ) (n : Ptr) (h : GcHeap) → Frame h (seed_node pending i n h)
unfolding seed_node
Frame-seed_node pending i n h = elim (Bool-cases (is_root_or_local (h.mem n))) [
  | inl e ↦ rw e (elim (Bool-cases pending) [
    | inl p ↦ rw p (Frame-set_color h n gray)
    | inr p ↦
        rw p
          (Frame-trans (Frame-set_color h n gray) (Frame-gray (set_color h n gray) i (λ g. n ∷ g)))
  ])
  | inr e ↦ rw e (elim (Bool-cases pending) [
    | inl p ↦ rw p (Frame-refl h)
    | inr p ↦ rw p (Frame-set_color h n white)
  ])
]

Frame-seed_nodes :
    (pending : Bool) (i : ℕ) (ns : List Ptr) (h : GcHeap) → Frame h (seed_nodes pending i ns h)
unfolding seed_nodes
Frame-seed_nodes pending i [] h = Frame-refl h
Frame-seed_nodes pending i (n ∷ ns) h =
    Frame-trans (Frame-seed_node pending i n h)
      (Frame-seed_nodes pending i ns (seed_node pending i n h))

pub Frame-enlist : (h : GcHeap) (i : ℕ) (n : Ptr) → Frame h (enlist h i n)
Frame-enlist h i n = elim (Bool-cases (h.mem n).gray_listed) [
  | inl e ↦ rw e (Frame-refl h)
  | inr e ↦ rw e (
      Frame-trans (Frame-set_gray_listed h n true)
        (Frame-gray (set_gray_listed h n true) i (λ g. n ∷ g)))
]

Frame-relist_node : (i : ℕ) (n : Ptr) (h : GcHeap) → Frame h (relist_node i n h)
unfolding relist_node
Frame-relist_node i n h = elim (Bool-cases (is_root_or_local (h.mem n))) [
  | inl e ↦ rw e (Frame-trans (Frame-set_color h n gray) (Frame-enlist (set_color h n gray) i n))
  | inr e ↦ rw e (Frame-refl h)
]

Frame-relist_nodes : (i : ℕ) (ns : List Ptr) (h : GcHeap) → Frame h (relist_nodes i ns h)
unfolding relist_nodes
Frame-relist_nodes i [] h = Frame-refl h
Frame-relist_nodes i (n ∷ ns) h =
    Frame-trans (Frame-relist_node i n h) (Frame-relist_nodes i ns (relist_node i n h))

pub Frame-seed_partition : (i : ℕ) (h : GcHeap) → Frame h (seed_partition i h)
unfolding seed_partition
Frame-seed_partition i h =
    let ns = (partition_at h i).nodes in
    elim (Bool-cases (is_empty (partition_at h i).gray_list)) [
      | inl e ↦ rw e (Frame-seed_nodes false i ns h)
      | inr e ↦ rw e (Frame-trans (Frame-seed_nodes true i ns h) (Frame-relist_nodes i ns _))
    ]

-- Seeding partition `i` writes no color but of its own nodes, and no list but its own.
pub record Elsewhere (i : ℕ) (ns : List Ptr) (h g : GcHeap) : Type 0 where
  pub color : (q : Ptr) → q ∉ ns → (g.mem q).color ≡ (h.mem q).color
  pub flag : (q : Ptr) → q ∉ ns → (g.mem q).gray_listed ≡ (h.mem q).gray_listed
  pub lists : (j : ℕ) → i ≢ j → (partition_at g j).gray_list ≡ (partition_at h j).gray_list

gray_list-push :
    (h : GcHeap) (i j : ℕ) (n : Ptr)
    → i ≢ j
    → (partition_at (modify_partition h i (push_gray n)) j).gray_list ≡ (partition_at h j).gray_list
gray_list-push h i j n ne =
    ground (arith, get_or-modify h.partitions i j (push_gray n) no_partition)

seed_node-Elsewhere :
    (pending : Bool) (i : ℕ) (n : Ptr) (h : GcHeap)
    → Elsewhere i (n ∷ []) h (seed_node pending i n h)
unfolding seed_node
seed_node-Elsewhere pending i n h = record {
  color = λ q o. ground arith;
  flag = λ q o. ground arith;
  lists = λ j ne. ground (arith, gray_list-push (set_color h n gray) i j n);
}

relist_node-Elsewhere : (i : ℕ) (n : Ptr) (h : GcHeap) → Elsewhere i (n ∷ []) h (relist_node i n h)
unfolding relist_node
relist_node-Elsewhere i n h = record {
  color = λ q o. ground arith;
  flag = λ q o. ground arith;
  lists =
      λ j ne. ground (arith, gray_list-push (set_gray_listed (set_color h n gray) n true) i j n);
}

Elsewhere-cons :
    {i : ℕ} {n : Ptr} {ns : List Ptr} {h g k : GcHeap}
    → Elsewhere i (n ∷ []) h g
    → Elsewhere i ns g k
    → Elsewhere i (n ∷ ns) h k
Elsewhere-cons a b = record {
  color = λ q o. ground (arith, a.color q, b.color q);
  flag = λ q o. ground (arith, a.flag q, b.flag q);
  lists = λ j ne. b.lists j ne ∙ a.lists j ne;
}

seed_nodes-Elsewhere :
    (pending : Bool) (i : ℕ) (ns : List Ptr) (h : GcHeap)
    → Elsewhere i ns h (seed_nodes pending i ns h)
unfolding seed_nodes
seed_nodes-Elsewhere pending i [] h = record {
  color = λ q o. refl;
  flag = λ q o. refl;
  lists = λ j ne. refl;
}
seed_nodes-Elsewhere pending i (n ∷ ns) h =
    Elsewhere-cons (seed_node-Elsewhere pending i n h)
      (seed_nodes-Elsewhere pending i ns (seed_node pending i n h))

relist_nodes-Elsewhere :
    (i : ℕ) (ns : List Ptr) (h : GcHeap) → Elsewhere i ns h (relist_nodes i ns h)
unfolding relist_nodes
relist_nodes-Elsewhere i [] h = record {
  color = λ q o. refl;
  flag = λ q o. refl;
  lists = λ j ne. refl;
}
relist_nodes-Elsewhere i (n ∷ ns) h =
    Elsewhere-cons (relist_node-Elsewhere i n h) (relist_nodes-Elsewhere i ns (relist_node i n h))

pub seed_partition-Elsewhere :
    (i : ℕ) (h : GcHeap) → Elsewhere i (partition_at h i).nodes h (seed_partition i h)
unfolding seed_partition
seed_partition-Elsewhere i h =
    let ns = (partition_at h i).nodes in
    elim (Bool-cases (is_empty (partition_at h i).gray_list)) [
      | inl e ↦ rw e (seed_nodes-Elsewhere false i ns h)
      | inr e ↦ rw e (
          let a = seed_nodes-Elsewhere true i ns h in
          let b = relist_nodes-Elsewhere i ns (seed_nodes true i ns h) in
          record {
            color = λ q o. b.color q o ∙ a.color q o;
            flag = λ q o. b.flag q o ∙ a.flag q o;
            lists = λ j ne. b.lists j ne ∙ a.lists j ne;
          })
    ]

-- Seeding a partition with no pending grays: protected nodes are gray and listed, others white.
pub record Seeded (i : ℕ) (ns : List Ptr) (h g : GcHeap) : Type 0 where
  pub color :
      (q : Ptr)
      → (g.mem q).color ≡ (
          if contains ns q
          then (if is_root_or_local (h.mem q) then gray else white)
          else (h.mem q).color)
  pub list :
      (q : Ptr)
      → contains (partition_at g i).gray_list q
        ≡ (contains (partition_at h i).gray_list q || (contains ns q && is_root_or_local (h.mem q)))
  pub flag : (q : Ptr) → (g.mem q).gray_listed ≡ (h.mem q).gray_listed

seed_node-Seeded :
    (i : ℕ) (n : Ptr) (h : GcHeap)
    → i < length h.partitions
    → Seeded i (n ∷ []) h (seed_node false i n h)
unfolding seed_node
seed_node-Seeded i n h lt = record {
  color = λ q. ground (arith, ==_iff n q);
  flag = λ q. ground arith;
  list = λ q. ground (arith, get_or-modify h.partitions i i (push_gray n) no_partition, ==_iff n q);
}

seed_nodes-Seeded :
    (i : ℕ) (ns : List Ptr) (h : GcHeap)
    → i < length h.partitions
    → Seeded i ns h (seed_nodes false i ns h)
unfolding seed_nodes
seed_nodes-Seeded i [] h lt = record {
  color = λ q. ground arith;
  list = λ q. ground arith;
  flag = λ q. refl;
}
seed_nodes-Seeded i (n ∷ ns) h lt =
    let f = Frame-seed_node false i n h in
    let a = seed_node-Seeded i n h lt in
    let b = seed_nodes-Seeded i ns (seed_node false i n h) (omega (arith, f.count)) in
    record {
      color = λ q. ground (arith, a.color q, b.color q, f.heads q);
      list = λ q. ground (arith, a.list q, b.list q, f.heads q);
      flag = λ q. b.flag q ∙ a.flag q;
    }

pub seed_partition-Seeded :
    (i : ℕ) (h : GcHeap)
    → i < length h.partitions
    → (partition_at h i).gray_list ≡ []
    → Seeded i (partition_at h i).nodes h (seed_partition i h)
unfolding seed_partition
seed_partition-Seeded i h lt e =
    let none_pending : is_empty (partition_at h i).gray_list ≡ true = ap is_empty e in
    rw none_pending (seed_nodes-Seeded i (partition_at h i).nodes h lt)
