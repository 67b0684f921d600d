-- ===== src/Mark/Loop.antt =====
-- The loop of `mark_grays`: the invariant at its end, and how far it has come when it stops early.
use gc_lite.Base.{
  ℕ, zero, suc, ◌+◌, ◌≤◌, ◌<◌, ◌≡◌, Bool, true, false, List, [], ◌∷◌, arith, if◌then◌else◌, ◌∈◌,
  ==_iff, Bool-cases, inl, inr, length, get_or-modify,
}
use gc_lite.Node.{gray, is_black, is_gray, Ptr}
use gc_lite.Heap.{GcHeap, set_gray_listed, partition_at, no_partition}
use gc_lite.Mark.{blacken, mark_loop, put_gray}
use gc_lite.Mark.Frame.{Frame, Frame-trans, Frame-set_gray_listed, Frame-gray}
use gc_lite.Mark.Shade.{Blackened-blacken}
use gc_lite.Mark.Invariant.{
  Region, Fits, Tricolor, Exact, Fits-Frame, Tricolor-skip, Tricolor-blacken, Exact-blacken,
}

-- The nodes of a chain that are not black yet.
pub pending : List Ptr → GcHeap → ℕ
pending [] h = 0
pending (p ∷ ps) h = (if is_black (h.mem p).color then 0 else 1) + pending ps h

pub pending-le-length : (ps : List Ptr) (h : GcHeap) → pending ps h ≤ length ps
unfolding pending
pending-le-length [] h = omega arith
pending-le-length (p ∷ ps) h = ground (arith, pending-le-length ps h)

-- `g` has every black node of `h`.
abbrev pub Darker : GcHeap → GcHeap → Type 0
Darker h g = (q : Ptr) → is_black (h.mem q).color ≡ true → is_black (g.mem q).color ≡ true

pending_mono : (ps : List Ptr) (h g : GcHeap) → Darker h g → pending ps g ≤ pending ps h
unfolding pending
pending_mono [] h g d = omega arith
pending_mono (p ∷ ps) h g d = ground (arith, pending_mono ps h g d, d p)

pending_falls :
    (ps : List Ptr) (h g : GcHeap) (p : Ptr)
    → Darker h g
    → p ∈ ps
    → is_black (h.mem p).color ≡ false
    → is_black (g.mem p).color ≡ true
    → suc (pending ps g) ≤ pending ps h
unfolding pending
pending_falls [] h g p d i no_ yes_ = cc
pending_falls (x ∷ ps) h g p d i no_ yes_ =
    ground (arith, pending_falls ps h g p d, pending_mono ps h g d, d x, ==_iff x p)

-- The state that the loop leaves.
pub record Left (r : Region) (steps : ℕ) (h : GcHeap) (out : Bool × GcHeap) : Type 0 where
  pub tricolor : Tricolor r (partition_at out.1 r.pid).gray_list out.1
  pub frame : Frame h out.1
  pub done : out.0 ≡ true → (partition_at out.1 r.pid).gray_list ≡ []
  pub exact : Exact r h → Exact r out.1
  pub progress : pending r.nodes out.1 ≤ pending r.nodes h
  pub rounds : out.0 ≡ false → steps + pending r.nodes out.1 ≤ pending r.nodes h

gray_list-put_gray :
    (h : GcHeap) (pid : ℕ) (g : List Ptr)
    → pid < length h.partitions
    → (partition_at (put_gray h pid g) pid).gray_list ≡ g
gray_list-put_gray h pid g lt =
    ground
      (arith, get_or-modify h.partitions pid pid (λ p. record p { gray_list = g }) no_partition)

module _ {r : Region} where
  Tricolor-put_gray :
      (g : List Ptr) (h : GcHeap)
      → r.pid < length h.partitions
      → Tricolor r g h
      → Tricolor r (partition_at (put_gray h r.pid g) r.pid).gray_list (put_gray h r.pid g)
  Tricolor-put_gray g h lt v = rw (gray_list-put_gray h r.pid g lt) (record {
    inside = v.inside;
    barrier = v.barrier;
    listed = v.listed;
    rooted = v.rooted;
    flagged = v.flagged;
  })

  Left-end :
      (steps : ℕ) (h : GcHeap)
      → r.pid < length h.partitions
      → Tricolor r [] h
      → Left r steps h (true, put_gray h r.pid [])
  Left-end steps h lt v = record {
    tricolor = Tricolor-put_gray [] h lt v;
    frame = Frame-gray h r.pid (λ _. []);
    done = λ _. gray_list-put_gray h r.pid [] lt;
    exact = λ x. x;
    progress = pending_mono r.nodes h (put_gray h r.pid []) (λ q b. b);
    rounds = λ e. cc;
  }

  -- The gray node goes back on the list.
  Left-stop :
      (node : Ptr) (g : List Ptr) (h : GcHeap)
      → r.pid < length h.partitions
      → Tricolor r (node ∷ g) h
      → Left r 0 h (false, put_gray (set_gray_listed h node false) r.pid (node ∷ g))
  Left-stop node g h lt v =
      let h' = set_gray_listed h node false in
      let less = pending_mono r.nodes h (put_gray h' r.pid (node ∷ g)) (λ q b. ground arith) in
      record {
        tricolor = Tricolor-put_gray (node ∷ g) h' lt (record {
          inside = v.inside;
          barrier = λ p q i b e j. ground (arith, v.barrier p q);
          listed = λ p i c. ground (arith, v.listed p);
          rooted = λ p i k. ground (arith, v.rooted p);
          flagged = λ p i e. ground (arith, v.flagged p);
        });
        frame =
            Frame-trans (Frame-set_gray_listed h node false) (Frame-gray h' r.pid (λ _. node ∷ g));
        done = λ e. cc;
        exact = λ x p i c. x p i (ground arith);
        progress = less;
        rounds = λ e. omega arith;
      }

  Left-after :
      (d s n : ℕ) {h k : GcHeap} {out : Bool × GcHeap}
      → Frame h k
      → (Exact r h → Exact r k)
      → d + pending r.nodes k ≤ pending r.nodes h
      → n ≤ d + s
      → Left r s k out
      → Left r n h out
  Left-after d s n f x less le l = record {
    tricolor = l.tricolor;
    frame = Frame-trans f l.frame;
    done = l.done;
    exact = λ v. l.exact (x v);
    progress = omega (arith, l.progress);
    rounds = λ e. omega (arith, l.rounds e);
  }

  Left-skip :
      (n : ℕ) (node : Ptr) {h : GcHeap} {out : Bool × GcHeap}
      → Left r n (set_gray_listed h node false) out
      → Left r n h out
  Left-skip n node {h} l =
      Left-after 0 n n (Frame-set_gray_listed h node false) (λ x p i c. x p i (ground arith))
        (omega (arith, pending_mono r.nodes h (set_gray_listed h node false) (λ q b. ground arith)))
        (omega arith) l

  Left-trace :
      (n : ℕ) (node : Ptr) (g : List Ptr) {h : GcHeap} {out : Bool × GcHeap}
      → Fits r h
      → Tricolor r (node ∷ g) h
      → (h.mem node).color ≡ gray
      → Left r n (blacken r.pid node g (set_gray_listed h node false)).heap out
      → Left r (suc n) h out
  Left-trace n node g {h} fits v is l =
      let h' = set_gray_listed h node false in
      let b = Blackened-blacken r.pid node g h' in
      let own = v.inside node (ground arith) in
      let falls =
        pending_falls r.nodes h (blacken r.pid node g h').heap node
          (λ q k. ground (arith, b.color q)) own (ground arith) (ground (arith, b.color node)) in
      Left-after 1 n (suc n) (Frame-trans (Frame-set_gray_listed h node false) b.frame)
        (λ x. Exact-blacken node g fits x own is) (omega (arith, falls)) (omega arith) l

-- Each way through the loop.
pub Left-mark_loop :
    {r : Region} (steps : ℕ) (g : List Ptr) (h : GcHeap)
    → r.pid < length h.partitions
    → Fits r h
    → Tricolor r g h
    → Left r steps h (mark_loop steps g r.pid h)
unfolding mark_loop
Left-mark_loop steps [] h lt fits v = Left-end steps h lt v
Left-mark_loop zero (node ∷ g) h lt fits v = elim (Bool-cases (is_gray (h.mem node).color)) [
  | inl e ↦ rw (e, mark_loop) (Left-stop node g h lt v)
  | inr e ↦
      rw (e, mark_loop)
        (Left-skip zero node (
          Left-mark_loop zero g (set_gray_listed h node false) lt
            (Fits-Frame (Frame-set_gray_listed h node false) fits)
            (Tricolor-skip node g v (ground arith))))
]
Left-mark_loop {r} (suc n) (node ∷ g) h lt fits v =
    let h' = set_gray_listed h node false in
    let u = blacken r.pid node g h' in
    let f =
      Frame-trans (Frame-set_gray_listed h node false) (Blackened-blacken r.pid node g h').frame in
    elim (Bool-cases (is_gray (h.mem node).color)) [
      | inl e ↦
          let is : (h.mem node).color ≡ gray = ground arith in
          rw (e, mark_loop)
            (Left-trace n node g fits v is (
              Left-mark_loop n u.gray u.heap (omega (arith, f.count)) (Fits-Frame f fits)
                (Tricolor-blacken node g fits v is)))
      | inr e ↦
          rw (e, mark_loop)
            (Left-skip (suc n) node (
              Left-mark_loop (suc n) g h' lt (Fits-Frame (Frame-set_gray_listed h node false) fits)
                (Tricolor-skip node g v (ground arith))))
    ]
