-- ===== src/Barrier/Write.antt =====
-- The user's writes during a marking cycle: each barrier keeps the invariant.
use gc_lite.Base.{
  ℕ, ◌≡◌, ◌≢◌, ◌<◌, ◌⊎◌, sym, Bool, true, not, ◌&&◌, List, arith, ◌==◌, ◌∈◌, length, ==_iff,
  Bool-cases, inl, inr, subst, ltb,
}
use gc_lite.Node.{white, gray, black, is_black, Ptr}
use gc_lite.Heap.{GcHeap, partition_at, set_color}
use gc_lite.Mark.{enlist, partition_add_gray, add_gray_node}
use gc_lite.Mark.Frame.{Frame, Frame-trans}
use gc_lite.Mark.Prepare.{get_or-past}
use gc_lite.Barrier.{reopen, with_write_barrier, write_payload, bind, bind_color, bind_cross}
use gc_lite.Barrier.Greyed.{Greyed, Greyed-none, Greyed-color, Greyed-enlist, Tricolor-Greyed}
use gc_lite.Barrier.Cycle.{IsCycle, IsCycle-Frame}

-- A node that stands in the chain that its header names.
abbrev pub Attached : GcHeap → Ptr → Type 0
Attached h p = p ∈ (partition_at h (h.mem p).partition_id).nodes

abbrev pub marks : GcHeap → Ptr → Bool
marks h p = (partition_at h (h.mem p).partition_id).marking

pub marking_range :
    (h : GcHeap) (i : ℕ) → (partition_at h i).marking ≡ true → i < length h.partitions
marking_range h i m = elim (Bool-cases (ltb i (length h.partitions))) [
  | inl lt ↦ ground arith
  | inr ge ↦ ground (arith, get_or-past h.partitions i)
]

-- The header of `node`, shaded where its partition is in a cycle.
pub IsCycle-Greyed :
    {hit list : Bool} {node : Ptr} {h g : GcHeap} {pid : ℕ}
    → Greyed hit list (h.mem node).partition_id node h g
    → IsCycle h pid
    → Attached h node
    → (marks h node ≡ true → hit ≡ true → list ≡ true)
    → IsCycle g pid
IsCycle-Greyed {node = node} {h} {pid = pid} s c at listed =
    let own = c.sound.owned pid node in
    IsCycle-Frame s.frame c (
      Tricolor-Greyed s c.tricolor (λ e l. subst (λ i. node ∈ (partition_at h i).nodes) e at)
        (λ m hit. (
          listed (subst (λ i. (partition_at h i).marking ≡ true) (sym (own m)) c.marking) hit,
          own m,
        ))
        (λ m l. own m))

Greyed-reopen :
    (h : GcHeap) (node : Ptr)
    → let hit = marks h node && is_black (h.mem node).color in
      Greyed hit hit (h.mem node).partition_id node h (reopen h node)
unfolding reopen add_gray_node partition_add_gray
Greyed-reopen h node =
    let pid = (h.mem node).partition_id in
    elim (Bool-cases (marks h node && is_black (h.mem node).color)) [
      | inl hit ↦
          let same : reopen h node ≡ enlist (set_color h node gray) pid node =
            ground (arith, ==_iff node node) in
          rw (same, hit) (Greyed-enlist pid node h (marking_range h pid (ground arith)))
      | inr miss ↦
          let same : reopen h node ≡ h = ground arith in rw (same, miss) (Greyed-none pid node h)
    ]

pub reopen-IsCycle :
    (h : GcHeap) (node : Ptr) (pid : ℕ)
    → IsCycle h pid
    → Attached h node
    → IsCycle (reopen h node) pid
reopen-IsCycle h node pid c at = IsCycle-Greyed (Greyed-reopen h node) c at (λ m e. e)

-- A payload is written: the nodes it refers to stand in their chains, and where the node is black,
-- those that it did not refer to before are not white.
pub write_payload-IsCycle :
    (h : GcHeap) (node : Ptr) (refs : List Ptr) (pid : ℕ)
    → IsCycle h pid
    → ((q : Ptr) → q ∈ refs → Attached h q)
    → ((q : Ptr)
        → node ∈ (partition_at h pid).nodes
        → (h.mem node).color ≡ black
        → q ∈ refs
        → q ∈ (partition_at h pid).nodes
        → (q ∈ h.payload node) ⊎ ((h.mem q).color ≢ white))
    → IsCycle (write_payload h node refs) pid
write_payload-IsCycle h node refs pid c known dark = record {
  range = c.range;
  marking = c.marking;
  sound = record {
    owned = c.sound.owned;
    closed = λ p q m e. ground (arith, c.sound.closed p q, known q);
  };
  tricolor = record {
    inside = c.tricolor.inside;
    barrier = λ p q m k e n. ground (arith, c.tricolor.barrier p q, dark q, ==_iff node p);
    listed = c.tricolor.listed;
    rooted = c.tricolor.rooted;
    flagged = c.tricolor.flagged;
  };
}

pub marks_inside :
    {h : GcHeap} {pid : ℕ} (node : Ptr)
    → IsCycle h pid
    → node ∈ (partition_at h pid).nodes
    → marks h node ≡ true
marks_inside {h} {pid} node c m =
    subst (λ i. (partition_at h i).marking ≡ true) (sym (c.sound.owned pid node m)) c.marking

Attached-Frame : {h g : GcHeap} → Frame h g → (q : Ptr) → Attached h q → Attached g q
Attached-Frame {h} f q at = ground (arith, f.heads q, f.pars (h.mem q).partition_id)

-- `with_write_barrier` keeps the cycle's invariant, whatever the mutator writes.
pub with_write_barrier-IsCycle :
    (h : GcHeap) (node : Ptr) (refs : List Ptr) (pid : ℕ)
    → IsCycle h pid
    → Attached h node
    → ((q : Ptr) → q ∈ refs → Attached h q)
    → IsCycle (with_write_barrier h node refs) pid
unfolding with_write_barrier
with_write_barrier-IsCycle h node refs pid c at known =
    let s = Greyed-reopen h node in
    write_payload-IsCycle (reopen h node) node refs pid (reopen-IsCycle h node pid c at)
      (λ q e. Attached-Frame s.frame q (known q e))
      (λ q m k e n.
        absurd
          (ground (arith, s.color node, s.frame.pars pid, marks_inside node c, ==_iff node node)))

Greyed-bind_color :
    (h : GcHeap) (master slave : Ptr)
    → let hit = is_black (h.mem master).color && not (is_black (h.mem slave).color) in
      Greyed hit
        (hit && marks h slave)
        (h.mem slave).partition_id
        slave
        h
        (bind_color h master slave)
unfolding bind_color add_gray_node partition_add_gray
Greyed-bind_color h master slave =
    let pid = (h.mem slave).partition_id in
    let hit : Bool = is_black (h.mem master).color && not (is_black (h.mem slave).color) in
    elim (Bool-cases hit) [
      | inr miss ↦
          let same : bind_color h master slave ≡ h = ground arith in
          rw (same, miss) (Greyed-none pid slave h)
      | inl is ↦ elim (Bool-cases (marks h slave)) [
        | inl on ↦
            let same : bind_color h master slave ≡ enlist (set_color h slave gray) pid slave =
              ground (arith, ==_iff slave slave) in
            rw (same, is, on) (Greyed-enlist pid slave h (marking_range h pid on))
        | inr off ↦
            let same : bind_color h master slave ≡ set_color h slave gray =
              ground (arith, ==_iff slave slave) in
            rw (same, is, off) (Greyed-color pid slave h)
      ]
    ]

abbrev crosses : GcHeap → Ptr → Ptr → Bool
crosses h master slave =
    not ((h.mem master).partition_id == (h.mem slave).partition_id)
    && not (is_black (h.mem slave).color)
    && marks h slave

Greyed-bind_cross :
    (h : GcHeap) (master slave : Ptr)
    → let hit = crosses h master slave in
      Greyed hit hit (h.mem slave).partition_id slave h (bind_cross h master slave)
unfolding bind_cross
Greyed-bind_cross h master slave =
    let pid = (h.mem slave).partition_id in
    elim (Bool-cases (crosses h master slave)) [
      | inl hit ↦
          let same : bind_cross h master slave ≡ enlist (set_color h slave gray) pid slave =
            ground arith in
          rw (same, hit) (Greyed-enlist pid slave h (marking_range h pid (ground arith)))
      | inr miss ↦
          let same : bind_cross h master slave ≡ h = ground arith in
          rw (same, miss) (Greyed-none pid slave h)
    ]

-- `bind` keeps the cycle's invariant.
pub bind-IsCycle :
    (h : GcHeap) (master slave : Ptr) (pid : ℕ)
    → IsCycle h pid
    → Attached h slave
    → IsCycle (bind h master slave) pid
unfolding bind
bind-IsCycle h master slave pid c at =
    let s = Greyed-bind_color h master slave in
    let g = bind_color h master slave in
    let mid : IsCycle g pid = IsCycle-Greyed s c at (λ m e. ground arith) in
    IsCycle-Greyed (Greyed-bind_cross g master slave) mid (Attached-Frame s.frame slave at)
      (λ m e. e)

Frame-bind : (h : GcHeap) (master slave : Ptr) → Frame h (bind h master slave)
unfolding bind
Frame-bind h master slave =
    Frame-trans (Greyed-bind_color h master slave).frame
      (Greyed-bind_cross (bind_color h master slave) master slave).frame

bind-color :
    (h : GcHeap) (master slave : Ptr) (pid : ℕ)
    → IsCycle h pid
    → let g = bind h master slave in
      master ∈ (partition_at g pid).nodes
      → (g.mem master).color ≡ black
      → (g.mem slave).color ≢ white
unfolding bind
bind-color h master slave pid c m k =
    let s = Greyed-bind_color h master slave in
    let t = Greyed-bind_cross (bind_color h master slave) master slave in
    ground (
      arith,
      s.color master,
      t.color master,
      s.color slave,
      t.color slave,
      ==_iff slave slave,
      ==_iff slave master,
    )

-- `bind`, then the write of the new reference.
pub bind-write-IsCycle :
    (h : GcHeap) (master slave : Ptr) (refs : List Ptr) (pid : ℕ)
    → IsCycle h pid
    → Attached h slave
    → ((q : Ptr) → q ∈ refs → Attached h q)
    → ((q : Ptr) → q ∈ refs → (slave ≡ q) ⊎ (q ∈ h.payload master))
    → IsCycle (write_payload (bind h master slave) master refs) pid
bind-write-IsCycle h master slave refs pid c at known new =
    let f = Frame-bind h master slave in
    write_payload-IsCycle (bind h master slave) master refs pid
      (bind-IsCycle h master slave pid c at) (λ q e. Attached-Frame f q (known q e))
      (λ q m k e n. elim (new q e) [
        | inl is ↦ inr (
            subst (λ p. ((bind h master slave).mem p).color ≢ white) is
              (bind-color h master slave pid c m k))
        | inr old ↦ inl (subst (λ (l : Ptr → List Ptr). q ∈ l master) (sym f.payload) old)
      ])
