-- ===== src/Mark/Prepare.antt =====
-- `mark_prepare` begins a cycle: what the partition looks like when its marking starts.
use gc_lite.Base.{
  ℕ, zero, suc, ◌+◌, ◌≤◌, ◌<◌, ◌≡◌, ◌≢◌, refl, ◌∙◌, ap, true, false, List, [], ◌∷◌, arith, ◌==◌,
  if◌then◌else◌, contains, ◌∈◌, ◌∉◌, Bool-cases, inl, inr, length, ltb, get_or, subst, sym,
}
use gc_lite.Node.{Ptr}
use gc_lite.Heap.{GcPartition, GcHeap, partition_at, no_partition, set_marking}
use gc_lite.Mark.{mark_all, seed_partition, seed_partitions}
use gc_lite.Mark.Frame.{Frame, Frame-refl, Frame-trans}
use gc_lite.Mark.Invariant.{Region, base, Fits, Tricolor, Exact, Fits-Frame}
use gc_lite.Mark.Seed.{Frame-seed_partition, seed_partition-Elsewhere, seed_partition-Seeded}

-- Each node's header names the partition whose chain it is in.
abbrev pub Owned : GcHeap → Type 0
Owned h = (i : ℕ) (p : Ptr) → p ∈ (partition_at h i).nodes → (h.mem p).partition_id ≡ i

pub Owned-Frame : {h g : GcHeap} → Frame h g → Owned h → Owned g
Owned-Frame f o i p m = ground (arith, f.pars i, f.heads p, o i p)

-- No flag is left from an earlier cycle.
abbrev pub Unlisted : Region → GcHeap → Type 0
Unlisted r h = (p : Ptr) → p ∈ r.nodes → (h.mem p).gray_listed ≡ false

-- A partition with a fresh marking.
pub record Started (r : Region) (h : GcHeap) : Type 0 where
  pub tricolor : Tricolor r (partition_at h r.pid).gray_list h
  pub exact : Exact r h

module _ (r : Region) where
  Started-seed :
      (h : GcHeap)
      → r.pid < length h.partitions
      → (partition_at h r.pid).nodes ≡ r.nodes
      → Fits r h
      → (partition_at h r.pid).gray_list ≡ []
      → Unlisted r h
      → Started r (seed_partition r.pid h)
  Started-seed h lt e fits empty un =
      let s = seed_partition-Seeded r.pid h lt empty in
      record {
        tricolor = record {
          inside = λ p i. ground (arith, s.list p);
          barrier = λ p q i b k j. ground (arith, s.color p);
          listed = λ p i c. ground (arith, s.color p, s.list p);
          rooted = λ p i k. ground (arith, s.color p, fits.protected p);
          flagged = λ p i k. ground (arith, s.flag p, un p i);
        };
        exact = λ p i ne. base p i (ground (arith, s.color p, fits.protected p));
      }

  -- Seeding another partition.
  module _ (i : ℕ) (h : GcHeap) (o : Owned h) (fits : Fits r h) (ne : i ≢ r.pid) where
    away : (p : Ptr) → p ∈ r.nodes → p ∉ (partition_at h i).nodes
    away p m = elim (Bool-cases (contains (partition_at h i).nodes p)) [
      | inl there ↦ absurd (ne (ground (arith, o i p there, fits.owned p m)))
      | inr out ↦ out
    ]

    pub Unlisted-other : Unlisted r h → Unlisted r (seed_partition i h)
    Unlisted-other un p m = ground (arith, (seed_partition-Elsewhere i h).flag p (away p m), un p m)

    Started-other : Started r h → Started r (seed_partition i h)
    Started-other s =
        let e = seed_partition-Elsewhere i h in
        let v = s.tricolor in
        record {
          tricolor = rw (e.lists r.pid ne) (record {
            inside = v.inside;
            barrier = λ p q a b k j.
                ground (arith, e.color p (away p a), e.color q (away q j), v.barrier p q);
            listed = λ p a c. ground (arith, e.color p (away p a), v.listed p);
            rooted = λ p a k. ground (arith, e.color p (away p a), v.rooted p);
            flagged = λ p a k. ground (arith, e.flag p (away p a), v.flagged p);
          });
          exact = λ p a c. ground (arith, e.color p (away p a), s.exact p a);
        }

  Started-later :
      (n i : ℕ) (h : GcHeap)
      → r.pid < i
      → Owned h
      → Fits r h
      → Started r h
      → Started r (seed_partitions n i h)
  unfolding seed_partitions
  Started-later zero i h past o fits s = s
  Started-later (suc n) i h past o fits s =
      let f = Frame-seed_partition i h in
      Started-later n (i + 1) (seed_partition i h) (omega arith) (Owned-Frame f o)
        (Fits-Frame f fits) (Started-other i h o fits (omega arith) s)

  pub Started-seed_partitions :
      (n i : ℕ) (h : GcHeap)
      → i ≤ r.pid
      → r.pid < i + n
      → r.pid < length h.partitions
      → (partition_at h r.pid).nodes ≡ r.nodes
      → Owned h
      → Fits r h
      → (partition_at h r.pid).gray_list ≡ []
      → Unlisted r h
      → Started r (seed_partitions n i h)
  unfolding seed_partitions
  Started-seed_partitions zero i h le lt range e o fits empty un = absurd (omega arith)
  Started-seed_partitions (suc n) i h le lt range e o fits empty un =
      let f = Frame-seed_partition i h in
      elim (Bool-cases (i == r.pid)) [
        | inl here ↦
            let at : i ≡ r.pid = ground arith in
            let s : Started r (seed_partition i h) =
              subst (λ (j : ℕ). Started r (seed_partition j h)) (sym at)
                (Started-seed h range e fits empty un) in
            Started-later n (i + 1) (seed_partition i h) (omega arith) (Owned-Frame f o)
              (Fits-Frame f fits) s
        | inr other ↦
            let ne : i ≢ r.pid = ground arith in
            Started-seed_partitions n (i + 1) (seed_partition i h) (omega arith) (omega arith)
              (omega (arith, f.count)) (ground (arith, f.pars r.pid)) (Owned-Frame f o)
              (Fits-Frame f fits) ((seed_partition-Elsewhere i h).lists r.pid ne ∙ empty)
              (Unlisted-other i h o fits ne un)
      ]

pub Frame-seed_partitions : (n i : ℕ) (h : GcHeap) → Frame h (seed_partitions n i h)
unfolding seed_partitions
Frame-seed_partitions zero i h = Frame-refl h
Frame-seed_partitions (suc n) i h =
    Frame-trans (Frame-seed_partition i h) (Frame-seed_partitions n (i + 1) (seed_partition i h))

pub get_or-mark_all :
    (ps : List GcPartition) (i : ℕ)
    → get_or (mark_all ps) i no_partition
      ≡ (if ltb i (length ps) then set_marking true (get_or ps i no_partition) else no_partition)
unfolding mark_all
get_or-mark_all [] i = ground arith
get_or-mark_all (p ∷ ps) zero = ground arith
get_or-mark_all (p ∷ ps) (suc i) = ground (arith, get_or-mark_all ps i)

pub length-mark_all : (ps : List GcPartition) → length (mark_all ps) ≡ length ps
unfolding mark_all
length-mark_all [] = refl
length-mark_all (p ∷ ps) = ap suc (length-mark_all ps)

pub get_or-past :
    (ps : List GcPartition) (i : ℕ) → length ps ≤ i → get_or ps i no_partition ≡ no_partition
get_or-past [] i le = refl
get_or-past (p ∷ ps) zero le = absurd (omega arith)
get_or-past (p ∷ ps) (suc i) le = get_or-past ps i (omega arith)
