-- ===== src/Barrier/Cycle.antt =====
-- A partition in a marking cycle while the user's code runs: the invariant of the heap as it is now,
-- and that marking keeps it.
use gc_lite.Base.{ℕ, suc, ◌≡◌, ◌<◌, refl, ap, true, List, arith, length}
use gc_lite.Node.{Ptr}
use gc_lite.Heap.{GcHeap, partition_at}
use gc_lite.Mark.{mark_prepare, mark}
use gc_lite.Mark.Frame.{Frame}
use gc_lite.Mark.Invariant.{Tricolor}
use gc_lite.Mark.Prepare.{Owned-Frame}
use gc_lite.Mark.Cycle.{
  region, IsSound, IsIdle, IsMarking, mark_prepare-IsMarking, Left-mark, Frame-mark_prepare,
  marked_all, marked_nodes,
}

-- A marking cycle of the partition runs in a sound heap.
pub record IsCycle (h : GcHeap) (pid : ℕ) : Type 0 where
  pub range : pid < length h.partitions
  pub marking : (partition_at h pid).marking ≡ true
  pub sound : IsSound h
  pub tricolor : Tricolor (region h pid) (partition_at h pid).gray_list h

pub IsSound-Frame : {h g : GcHeap} → Frame h g → IsSound h → IsSound g
IsSound-Frame {h} {g} f s = record {
  owned = Owned-Frame f s.owned;
  closed = λ p q m e. ground (
    arith,
    s.closed p q,
    f.heads p,
    f.heads q,
    f.pars (h.mem p).partition_id,
    f.pars (h.mem q).partition_id,
    ap (λ (l : Ptr → List Ptr). l p) f.payload,
  );
}

-- The region of a heap that differs in colors, flags and gray lists.
pub Tricolor-region :
    {h g : GcHeap} {l : List Ptr} (pid : ℕ)
    → Frame h g
    → Tricolor (region h pid) l g
    → Tricolor (region g pid) l g
Tricolor-region pid f v = record {
  inside = λ p m. ground (arith, v.inside p, f.pars pid);
  barrier = λ p q m c e n.
      ground (arith, v.barrier p q, f.pars pid, ap (λ (k : Ptr → List Ptr). k p) f.payload);
  listed = λ p m c. ground (arith, v.listed p, f.pars pid);
  rooted = λ p m c. ground (arith, v.rooted p, f.pars pid, f.heads p);
  flagged = λ p m c. ground (arith, v.flagged p, f.pars pid);
}

pub IsCycle-Frame :
    {h g : GcHeap} {pid : ℕ}
    → Frame h g
    → IsCycle h pid
    → Tricolor (region h pid) (partition_at g pid).gray_list g
    → IsCycle g pid
IsCycle-Frame {pid = pid} f c t = record {
  range = omega (arith, f.count, c.range);
  marking = ground (arith, f.pars pid, c.marking);
  sound = IsSound-Frame f c.sound;
  tricolor = Tricolor-region pid f t;
}

pub IsCycle-IsMarking : {h : GcHeap} {pid : ℕ} → IsCycle h pid → IsMarking (region h pid) h
IsCycle-IsMarking {h} {pid} c = record {
  range = c.range;
  marking = c.marking;
  nodes = refl;
  fits = record {
    edges = λ p. refl;
    protected = λ p. refl;
    owned = λ p m. c.sound.owned pid p m;
    closed = λ p q m e o. ground (arith, c.sound.owned pid p m, c.sound.closed p q);
  };
  tricolor = c.tricolor;
}

-- A step of marking.
pub mark-IsCycle : (h : GcHeap) (pid n : ℕ) → IsCycle h pid → IsCycle (mark h pid (suc n)).1 pid
mark-IsCycle h pid n c =
    let l = Left-mark h n (IsCycle-IsMarking c) in IsCycle-Frame l.frame c l.tricolor

IsSound-marked_all : (h : GcHeap) → IsSound h → IsSound (marked_all h)
IsSound-marked_all h s = record {
  owned = λ i p m. s.owned i p (rw (marked_nodes h i) at m);
  closed = λ p q m e. ground (
    arith,
    s.closed p q,
    marked_nodes h (h.mem p).partition_id,
    marked_nodes h (h.mem q).partition_id,
  );
}

Tricolor-start :
    (h : GcHeap) (pid : ℕ) {g : GcHeap} {l : List Ptr}
    → Frame (marked_all h) g
    → Tricolor (region h pid) l g
    → Tricolor (region g pid) l g
Tricolor-start h pid f v = Tricolor-region pid f (record {
  inside = λ p m. ground (arith, v.inside p, marked_nodes h pid);
  barrier = λ p q m c e n. ground (arith, v.barrier p q, marked_nodes h pid);
  listed = λ p m c. ground (arith, v.listed p, marked_nodes h pid);
  rooted = λ p m c. ground (arith, v.rooted p, marked_nodes h pid);
  flagged = λ p m c. ground (arith, v.flagged p, marked_nodes h pid);
})

-- The start of a cycle.
pub mark_prepare-IsCycle :
    (h : GcHeap) (pid : ℕ) → IsSound h → IsIdle h pid → IsCycle (mark_prepare h pid) pid
mark_prepare-IsCycle h pid s i =
    let f = Frame-mark_prepare h pid i in
    let m = (mark_prepare-IsMarking h pid s i).0 in
    record {
      range = m.range;
      marking = m.marking;
      sound = IsSound-Frame f (IsSound-marked_all h s);
      tricolor = Tricolor-start h pid f m.tricolor;
    }
