-- ===== src/Mark/Shade.antt =====
-- What one round of `mark_grays` does to the headers and to the gray list, address by address.
use gc_lite.Base.{
  ℕ, ◌≡◌, refl, ap, Bool, true, not, ◌&&◌, ◌||◌, List, [], ◌∷◌, arith, ◌==◌, if◌then◌else◌,
  contains, ==_iff, Bool-cases, inl, inr,
}
use gc_lite.Node.{GcTriColor, gray, black, is_black, GcHead, Ptr}
use gc_lite.Heap.{GcHeap, modify_partition, push_gray}
use gc_lite.Trace.{add_node, submit, trace_node}
use gc_lite.Mark.Frame.{
  Frame, Frame-refl, Frame-trans, Frame-set_color, Frame-set_gray_listed, Frame-gray,
}
use gc_lite.Mark.{Tracing, shade_child, shade_children, flush, blacken}

contains-add_node :
    (n q : Ptr) (traced : List Ptr) → contains (add_node n traced) q ≡ (n == q || contains traced q)
unfolding add_node
contains-add_node n q traced = ground (arith, ==_iff n q)

contains-submit :
    (ns traced : List Ptr) (q : Ptr)
    → contains (submit ns traced) q ≡ (contains ns q || contains traced q)
unfolding submit
contains-submit [] traced q = refl
contains-submit (n ∷ ns) traced q =
    ground (arith, contains-submit ns (add_node n traced) q, contains-add_node n q traced)

-- A payload's references are submitted once each, none is lost and none added.
pub contains-trace_node :
    (h : GcHeap) (n q : Ptr) → contains (trace_node h n) q ≡ contains (h.payload n) q
unfolding trace_node
contains-trace_node h n q = ground (arith, contains-submit (h.payload n) [] q)

-- The color that shading a set of nodes leaves.
abbrev pub shade : Bool → GcTriColor → GcTriColor
shade hit c = if hit && not (is_black c) then gray else c

-- Shading a list of children, from any state of the loop's variables.
pub record Shaded (pid : ℕ) (cs : List Ptr) (t u : Tracing) : Type 0 where
  pub color : (q : Ptr) → (u.heap.mem q).color ≡ shade (contains cs q) (t.heap.mem q).color
  pub gray :
      (q : Ptr)
      → contains u.gray q ≡ (
          contains t.gray q
          || (contains cs q
              && not (is_black (t.heap.mem q).color)
              && (t.heap.mem q).partition_id == pid))
  pub flag :
      (q : Ptr)
      → (u.heap.mem q).gray_listed
        ≡ ((t.heap.mem q).gray_listed || (contains cs q && not (is_black (t.heap.mem q).color)))
  pub frame : Frame t.heap u.heap

Frame-shade_child : (pid : ℕ) (ch : Ptr) (t : Tracing) → Frame t.heap (shade_child pid ch t).heap
unfolding shade_child
Frame-shade_child pid ch t =
    let both = Frame-trans (Frame-set_color t.heap ch gray) (Frame-set_gray_listed _ ch true) in
    elim (Bool-cases (is_black (t.heap.mem ch).color)) [
      | inl done ↦ rw done (Frame-refl t.heap)
      | inr open_ ↦ rw open_ (elim (Bool-cases ((t.heap.mem ch).partition_id == pid)) [
        | inl own ↦ rw own both
        | inr other ↦ rw other both
      ])
    ]

Shaded-shade_child :
    (pid : ℕ) (ch : Ptr) (t : Tracing) → Shaded pid (ch ∷ []) t (shade_child pid ch t)
unfolding shade_child
Shaded-shade_child pid ch t = record {
  color = λ q. ground arith;
  gray = λ q. ground (arith, ==_iff ch q);
  flag = λ q. ground (arith, ==_iff ch q);
  frame = Frame-shade_child pid ch t;
}

pub Shaded-shade_children :
    (pid : ℕ) (cs : List Ptr) (t : Tracing) → Shaded pid cs t (shade_children pid cs t)
unfolding shade_children
Shaded-shade_children pid [] t = record {
  color = λ q. ground arith;
  gray = λ q. ground arith;
  flag = λ q. ground arith;
  frame = Frame-refl t.heap;
}
Shaded-shade_children pid (ch ∷ cs) t =
    let one = Shaded-shade_child pid ch t in
    let rest = Shaded-shade_children pid cs (shade_child pid ch t) in
    record {
      color = λ q. ground (arith, one.color q, rest.color q);
      gray = λ q. ground (arith, one.color q, one.gray q, rest.gray q, one.frame.heads q);
      flag = λ q. ground (arith, one.color q, one.flag q, rest.flag q);
      frame = Frame-trans one.frame rest.frame;
    }

pub mem-flush : (cross : List (ℕ × Ptr)) (h : GcHeap) → (flush cross h).mem ≡ h.mem
unfolding flush
mem-flush [] h = refl
mem-flush ((cpid, node) ∷ rest) h = mem-flush rest (modify_partition h cpid (push_gray node))

Frame-flush : (cross : List (ℕ × Ptr)) (h : GcHeap) → Frame h (flush cross h)
unfolding flush
Frame-flush [] h = Frame-refl h
Frame-flush ((cpid, node) ∷ rest) h =
    Frame-trans (Frame-gray h cpid (λ g. node ∷ g))
      (Frame-flush rest (modify_partition h cpid (push_gray node)))

-- Tracing one node: its references are shaded, those of the partition are listed, it is black.
pub record Blackened (pid : ℕ) (node : Ptr) (g : List Ptr) (h : GcHeap) (u : Tracing) : Type 0 where
  pub color :
      (q : Ptr)
      → (u.heap.mem q).color
        ≡ (if node == q then black else shade (contains (h.payload node) q) (h.mem q).color)
  pub gray :
      (q : Ptr)
      → contains u.gray q ≡ (
          contains g q
          || (contains (h.payload node) q
              && not (is_black (h.mem q).color)
              && (h.mem q).partition_id == pid))
  pub flag :
      (q : Ptr)
      → (u.heap.mem q).gray_listed
        ≡ ((h.mem q).gray_listed || (contains (h.payload node) q && not (is_black (h.mem q).color)))
  pub frame : Frame h u.heap

pub Blackened-blacken :
    (pid : ℕ) (node : Ptr) (g : List Ptr) (h : GcHeap)
    → Blackened pid node g h (blacken pid node g h)
unfolding blacken
Blackened-blacken pid node g h =
    let start : Tracing = record { heap = h; gray = g; cross = [] } in
    let t = shade_children pid (trace_node h node) start in
    let shaded = Shaded-shade_children pid (trace_node h node) start in
    record {
      color = λ q. ground (
        arith,
        shaded.color q,
        contains-trace_node h node q,
        ap (λ (m : Ptr → GcHead). (m q).color) (mem-flush t.cross t.heap),
      );
      gray = λ q. ground (arith, shaded.gray q, contains-trace_node h node q);
      flag = λ q. ground (
        arith,
        shaded.flag q,
        contains-trace_node h node q,
        ap (λ (m : Ptr → GcHead). (m q).gray_listed) (mem-flush t.cross t.heap),
      );
      frame =
          Frame-trans shaded.frame
            (Frame-trans (Frame-flush t.cross t.heap) (Frame-set_color _ node black));
    }
