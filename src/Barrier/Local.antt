-- ===== src/Barrier/Local.antt =====
-- Scopes during a marking cycle: protecting a node and giving up the protection.
use gc_lite.Base.{
  ℕ, ◌≡◌, refl, Bool, true, false, List, [], ◌∷◌, arith, ◌∈◌, ==_iff, Bool-cases, inl, inr, subst,
}
use gc_lite.Node.{Ptr, is_root_or_local}
use gc_lite.Heap.{GcHeap, GcScopeState, partition_at}
use gc_lite.Mark.{partition_add_gray}
use gc_lite.Mark.Invariant.{Tricolor}
use gc_lite.Mark.Cycle.{region, IsSound}
use gc_lite.Scope.{set_local, scope_add_node, add_non_local, unprotect, clear, cached}
use gc_lite.Barrier.Greyed.{Greyed-partition_add_gray, Tricolor-Greyed}
use gc_lite.Barrier.Cycle.{IsCycle, IsSound-Frame, Tricolor-region}
use gc_lite.Barrier.Write.{Attached, marks, marks_inside, marking_range}

IsSound-set_local : (h : GcHeap) (node : Ptr) (b : Bool) → IsSound h → IsSound (set_local h node b)
unfolding set_local
IsSound-set_local h node b s = record {
  owned = λ i p m. ground (arith, s.owned i p m, ==_iff node p);
  closed = λ p q m e. ground (arith, s.closed p q, ==_iff node p, ==_iff node q);
}

-- The node's own flag apart, the invariant is as before.
Tricolor-set_local :
    (h : GcHeap) (node : Ptr) (b : Bool) (pid : ℕ)
    → IsCycle h pid
    → Tricolor (region h pid) (partition_at h pid).gray_list (set_local h node b)
unfolding set_local
Tricolor-set_local h node b pid c = record {
  inside = c.tricolor.inside;
  barrier = λ p q m k e n. ground (arith, c.tricolor.barrier p q, ==_iff node p, ==_iff node q);
  listed = λ p m k. ground (arith, c.tricolor.listed p, ==_iff node p);
  rooted = λ p m k. ground (arith, c.tricolor.rooted p, ==_iff node p);
  flagged = λ p m k. ground (arith, c.tricolor.flagged p, ==_iff node p);
}

Local-outside :
    (h : GcHeap) (node : Ptr) (pid : ℕ)
    → IsCycle h pid
    → marks h node ≡ false
    → IsCycle (set_local h node true) pid
unfolding set_local
Local-outside h node pid c off =
    let t = Tricolor-set_local h node true pid c in
    record {
      range = c.range;
      marking = c.marking;
      sound = IsSound-set_local h node true c.sound;
      tricolor = record {
        inside = t.inside;
        barrier = t.barrier;
        listed = t.listed;
        rooted = λ p m k. ground (arith, t.rooted p m, marks_inside node c, ==_iff node p);
        flagged = t.flagged;
      };
    }

Local-IsCycle :
    (h : GcHeap) (node : Ptr) (pid : ℕ)
    → IsCycle h pid
    → Attached h node
    → marks h node ≡ true
    → IsCycle (partition_add_gray (set_local h node true) (h.mem node).partition_id node) pid
unfolding set_local
Local-IsCycle h node pid c at on =
    let i = (h.mem node).partition_id in
    let own = c.sound.owned pid node in
    let h1 = set_local h node true in
    let s = Greyed-partition_add_gray i node h1 (marking_range h i on) in
    let t =
      Tricolor-Greyed {r = region h pid} s (Tricolor-set_local h node true pid c)
        (λ e l. subst (λ j. node ∈ (partition_at h j).nodes) e at) (λ m e. (e, own m))
        (λ m e. own m) in
    record {
      range = omega (arith, c.range, s.frame.count);
      marking = ground (arith, s.frame.pars pid, c.marking);
      sound = IsSound-Frame s.frame (IsSound-set_local h node true c.sound);
      tricolor = Tricolor-region pid s.frame (record {
        inside = t.inside;
        barrier = t.barrier;
        listed = t.listed;
        rooted = λ p m k. ground (arith, t.rooted p m, s.color p, ==_iff node p);
        flagged = t.flagged;
      });
    }

Marking-at :
    (h : GcHeap) (s : GcScopeState) (node : Ptr)
    → s.partition_id ≡ (h.mem node).partition_id
    → marks h node ≡ true
    → (scope_add_node h s node).0
      ≡ partition_add_gray (set_local h node true) (h.mem node).partition_id node
unfolding scope_add_node set_local
Marking-at h s node same on = rw (same, on) refl

Resting-at :
    (h : GcHeap) (s : GcScopeState) (node : Ptr)
    → s.partition_id ≡ (h.mem node).partition_id
    → marks h node ≡ false
    → (scope_add_node h s node).0 ≡ set_local h node true
unfolding scope_add_node set_local
Resting-at h s node same off = rw (same, off) refl

pub scope_add_node-IsCycle :
    (h : GcHeap) (s : GcScopeState) (node : Ptr) (pid : ℕ)
    → s.partition_id ≡ (h.mem node).partition_id
    → IsCycle h pid
    → Attached h node
    → IsCycle (scope_add_node h s node).0 pid
unfolding scope_add_node
scope_add_node-IsCycle h s node pid same c at = elim (Bool-cases (marks h node)) [
  | inl on ↦
      let e : (scope_add_node h s node).0
          ≡ partition_add_gray (set_local h node true) (h.mem node).partition_id node =
        Marking-at h s node same on in
      rw e (Local-IsCycle h node pid c at on)
  | inr off ↦
      let e : (scope_add_node h s node).0 ≡ set_local h node true = Resting-at h s node same off in
      rw e (Local-outside h node pid c off)
]

-- `add_non_local`, by a scope of the node's own partition.
pub add_non_local-IsCycle :
    (h : GcHeap) (s : GcScopeState) (node : Ptr) (pid : ℕ)
    → s.partition_id ≡ (h.mem node).partition_id
    → IsCycle h pid
    → Attached h node
    → IsCycle (add_non_local h s node).1 pid
unfolding add_non_local
add_non_local-IsCycle h s node pid same c at = elim (Bool-cases (is_root_or_local (h.mem node))) [
  | inl is ↦ rw (is, add_non_local) c
  | inr no_ ↦ rw (no_, add_non_local) (scope_add_node-IsCycle h s node pid same c at)
]

set_local-IsCycle :
    (h : GcHeap) (node : Ptr) (pid : ℕ) → IsCycle h pid → IsCycle (set_local h node false) pid
unfolding set_local
set_local-IsCycle h node pid c =
    let t = Tricolor-set_local h node false pid c in
    record {
      range = c.range;
      marking = c.marking;
      sound = IsSound-set_local h node false c.sound;
      tricolor = record {
        inside = t.inside;
        barrier = t.barrier;
        listed = t.listed;
        rooted = λ p m k. ground (arith, t.rooted p m, ==_iff node p);
        flagged = t.flagged;
      };
    }

unprotect-IsCycle :
    (ns : List Ptr) (h : GcHeap) (pid : ℕ) → IsCycle h pid → IsCycle (unprotect ns h) pid
unfolding unprotect
unprotect-IsCycle [] h pid c = c
unprotect-IsCycle (n ∷ ns) h pid c =
    unprotect-IsCycle ns (set_local h n false) pid (set_local-IsCycle h n pid c)

-- A scope is cleared.
pub clear-IsCycle :
    (h : GcHeap) (s : GcScopeState) (pid : ℕ) → IsCycle h pid → IsCycle (clear h s).0 pid
unfolding clear
clear-IsCycle h s pid c = unprotect-IsCycle (cached s) h pid c
