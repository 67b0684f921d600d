-- ===== src/Mark/Invariant.antt =====
-- The tri-color invariant of one partition, and that tracing a node keeps it.
use gc_lite.Base.{ℕ, ◌≡◌, ◌≢◌, ◌∙◌, ap, Bool, true, false, List, ◌∷◌, arith, ◌∈◌, ==_iff}
use gc_lite.Node.{white, gray, black, Ptr, is_root_or_local}
use gc_lite.Heap.{GcHeap, set_gray_listed}
use gc_lite.Mark.{blacken}
use gc_lite.Mark.Frame.{Frame}
use gc_lite.Mark.Shade.{Blackened-blacken}

-- The partition under the collector: its id, its chain of nodes, the references between nodes and
-- the protected nodes.
pub record Region : Type 0 where
  pub pid : ℕ
  pub nodes : List Ptr
  pub edges : Ptr → List Ptr
  pub protected : Ptr → Bool

-- The nodes that a path inside the partition joins to a root or local node of it.
pub data Reach (r : Region) : Ptr → Type 0 where
  base : (p : Ptr) → p ∈ r.nodes → r.protected p ≡ true → Reach r p
  step : {p : Ptr} (q : Ptr) → Reach r p → q ∈ r.edges p → q ∈ r.nodes → Reach r q

-- The headers agree with the region: a node that belongs to the partition and is referenced from it
-- is in the chain.
pub record Fits (r : Region) (h : GcHeap) : Type 0 where
  pub edges : (p : Ptr) → h.payload p ≡ r.edges p
  pub protected : (p : Ptr) → is_root_or_local (h.mem p) ≡ r.protected p
  pub owned : (p : Ptr) → p ∈ r.nodes → (h.mem p).partition_id ≡ r.pid
  pub closed :
      (p q : Ptr) → p ∈ r.nodes → q ∈ r.edges p → (h.mem q).partition_id ≡ r.pid → q ∈ r.nodes

-- `g` is the gray list. No black node refers to a white one, each gray node is listed, and so is a
-- node whose flag says so.
pub record Tricolor (r : Region) (g : List Ptr) (h : GcHeap) : Type 0 where
  pub inside : (p : Ptr) → p ∈ g → p ∈ r.nodes
  pub barrier :
      (p q : Ptr)
      → p ∈ r.nodes
      → (h.mem p).color ≡ black
      → q ∈ r.edges p
      → q ∈ r.nodes
      → (h.mem q).color ≢ white
  pub listed : (p : Ptr) → p ∈ r.nodes → (h.mem p).color ≡ gray → p ∈ g
  pub rooted : (p : Ptr) → p ∈ r.nodes → r.protected p ≡ true → (h.mem p).color ≢ white
  pub flagged : (p : Ptr) → p ∈ r.nodes → (h.mem p).gray_listed ≡ true → p ∈ g

-- Only reachable nodes have been shaded.
abbrev pub Exact : Region → GcHeap → Type 0
Exact r h = (p : Ptr) → p ∈ r.nodes → (h.mem p).color ≢ white → Reach r p

pub Fits-Frame : {r : Region} {h g : GcHeap} → Frame h g → Fits r h → Fits r g
Fits-Frame f v = record {
  edges = λ p. ap (λ (e : Ptr → List Ptr). e p) f.payload ∙ v.edges p;
  protected = λ p. ground (arith, f.heads p, v.protected p);
  owned = λ p i. ground (arith, f.heads p, v.owned p);
  closed = λ p q i e o. v.closed p q i e (ground (arith, f.heads q));
}

module _ {r : Region} {h : GcHeap} (node : Ptr) (g : List Ptr) where
  -- Popping a node that is not gray.
  pub Tricolor-skip :
      Tricolor r (node ∷ g) h
      → (h.mem node).color ≢ gray
      → Tricolor r g (set_gray_listed h node false)
  Tricolor-skip v ne = record {
    inside = λ p i. ground (arith, v.inside p);
    barrier = λ p q i b e j. ground (arith, v.barrier p q);
    listed = λ p i c. ground (arith, v.listed p, ==_iff node p);
    rooted = λ p i k. ground (arith, v.rooted p);
    flagged = λ p i e. ground (arith, v.flagged p, ==_iff node p);
  }

  -- Tracing a gray node that was popped.
  pub Tricolor-blacken :
      Fits r h
      → Tricolor r (node ∷ g) h
      → (h.mem node).color ≡ gray
      → let u = blacken r.pid node g (set_gray_listed h node false) in Tricolor r u.gray u.heap
  Tricolor-blacken fits v is =
      let h' = set_gray_listed h node false in
      let b = Blackened-blacken r.pid node g h' in
      record {
        inside = λ p i.
            ground
              (arith, b.gray p, v.inside p, v.inside node, fits.edges node, fits.closed node p);
        barrier = λ p q i k e j.
            ground (arith, b.color p, b.color q, fits.edges node, v.barrier p q, ==_iff node p);
        listed = λ p i k. ground (arith, b.color p, b.gray p, v.listed p, fits.owned p);
        rooted = λ p i k. ground (arith, b.color p, v.rooted p);
        flagged =
            λ p i k. ground (arith, b.flag p, b.gray p, v.flagged p, fits.owned p, ==_iff node p);
      }

  pub Exact-blacken :
      Fits r h
      → Exact r h
      → node ∈ r.nodes
      → (h.mem node).color ≡ gray
      → Exact r (blacken r.pid node g (set_gray_listed h node false)).heap
  Exact-blacken fits v own is p i ne =
      let h' = set_gray_listed h node false in
      let b = Blackened-blacken r.pid node g h' in
      let here : Reach r node = v node own (ground arith) in
      ground (
        arith,
        b.color p,
        v p i,
        fits.edges node,
        λ (e : p ∈ r.edges node). step p here e i,
        ==_iff node p,
      )
