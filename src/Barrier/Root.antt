-- ===== src/Barrier/Root.antt =====
-- New roots during a marking cycle.
use gc_lite.Base.{ℕ, ◌≡◌, true, false, arith, ◌∈◌, ==_iff, Bool-cases, inl, inr, subst}
use gc_lite.Node.{Ptr}
use gc_lite.Heap.{GcHeap, partition_at, write_head}
use gc_lite.Mark.{partition_add_gray}
use gc_lite.Mark.Invariant.{Tricolor}
use gc_lite.Mark.Cycle.{region, IsSound}
use gc_lite.Barrier.{set_root_node}
use gc_lite.Barrier.Greyed.{Greyed-partition_add_gray, Tricolor-Greyed}
use gc_lite.Barrier.Cycle.{Tricolor-region, IsCycle, IsSound-Frame}
use gc_lite.Barrier.Write.{Attached, marks, marking_range, marks_inside}

abbrev rooted_at : GcHeap → Ptr → GcHeap
rooted_at h node = write_head h node (record (h.mem node) { root = true })

IsSound-rooted_at : (h : GcHeap) (node : Ptr) → IsSound h → IsSound (rooted_at h node)
IsSound-rooted_at h node s = record {
  owned = λ i p m. ground (arith, s.owned i p m, ==_iff node p);
  closed = λ p q m e. ground (arith, s.closed p q, ==_iff node p, ==_iff node q);
}

Tricolor-rooted_at :
    (h : GcHeap) (node : Ptr) (pid : ℕ)
    → IsCycle h pid
    → Tricolor (region h pid) (partition_at h pid).gray_list (rooted_at h node)
Tricolor-rooted_at h node pid c = record {
  inside = c.tricolor.inside;
  barrier = λ p q m k e n. ground (arith, c.tricolor.barrier p q, ==_iff node p, ==_iff node q);
  listed = λ p m k. ground (arith, c.tricolor.listed p, ==_iff node p);
  rooted = λ p m k. ground (arith, c.tricolor.rooted p, ==_iff node p);
  flagged = λ p m k. ground (arith, c.tricolor.flagged p, ==_iff node p);
}

Rooted-outside :
    (h : GcHeap) (node : Ptr) (pid : ℕ)
    → IsCycle h pid
    → marks h node ≡ false
    → IsCycle (rooted_at h node) pid
Rooted-outside h node pid c off =
    let t = Tricolor-rooted_at h node pid c in
    record {
      range = c.range;
      marking = c.marking;
      sound = IsSound-rooted_at h node c.sound;
      tricolor = record {
        inside = t.inside;
        barrier = t.barrier;
        listed = t.listed;
        rooted = λ p m k. ground (arith, t.rooted p m, marks_inside node c, ==_iff node p);
        flagged = t.flagged;
      };
    }

Rooted-IsCycle :
    (h : GcHeap) (node : Ptr) (pid : ℕ)
    → IsCycle h pid
    → Attached h node
    → marks h node ≡ true
    → IsCycle (partition_add_gray (rooted_at h node) (h.mem node).partition_id node) pid
Rooted-IsCycle h node pid c at on =
    let i = (h.mem node).partition_id in
    let own = c.sound.owned pid node in
    let s = Greyed-partition_add_gray i node (rooted_at h node) (marking_range h i on) in
    let t =
      Tricolor-Greyed {r = region h pid} s (Tricolor-rooted_at h node pid c)
        (λ e l. subst (λ j. node ∈ (partition_at h j).nodes) e at) (λ m e. (e, own m))
        (λ m e. own m) in
    record {
      range = omega (arith, c.range, s.frame.count);
      marking = ground (arith, s.frame.pars pid, c.marking);
      sound = IsSound-Frame s.frame (IsSound-rooted_at h node c.sound);
      tricolor = Tricolor-region pid s.frame (record {
        inside = t.inside;
        barrier = t.barrier;
        listed = t.listed;
        rooted = λ p m k. ground (arith, t.rooted p m, s.color p, ==_iff node p);
        flagged = t.flagged;
      });
    }

-- `set_root_node` keeps the cycle's invariant.
pub set_root_node-IsCycle :
    (h : GcHeap) (node : Ptr) (pid : ℕ)
    → IsCycle h pid
    → Attached h node
    → IsCycle (set_root_node h node) pid
unfolding set_root_node
set_root_node-IsCycle h node pid c at =
    let own = c.sound.owned pid node in
    elim (Bool-cases (h.mem node).root) [
      | inl is ↦ rw (is, set_root_node) c
      | inr no_ ↦ elim (Bool-cases (marks h node)) [
        | inl on ↦ rw (no_, on, set_root_node) (Rooted-IsCycle h node pid c at on)
        | inr off ↦ rw (no_, off, set_root_node) (Rooted-outside h node pid c off)
      ]
    ]
