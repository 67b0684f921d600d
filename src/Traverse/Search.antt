-- ===== src/Traverse/Search.antt =====
-- One turn of the traversal keeps what makes the search correct.
use gc_lite.Base.{
  ℕ, subst, ◌+◌, ◌≤◌, ◌≡◌, refl, sym, ap, ◌∙◌, Bool, true, false, not, ◌&&◌, ◌||◌, List, [], ◌∷◌,
  ◌++◌, Option, none, some, ◌==◌, if◌then◌else◌, ◌∈◌, contains, length, arith, ==_iff, Bool-cases,
  inl, inr, length-append,
}
use gc_lite.Node.{Ptr}
use gc_lite.Heap.{GcHeap}
use gc_lite.Mark.Shade.{contains-trace_node}
use gc_lite.Trace.{add_node, submit, trace_node}
use gc_lite.Traverse.{Visit, Traversal, selects, push_children, visit, turn, set_traverse_visited}

-- A chain of references from one node to another.
pub data Leads (edges : Ptr → List Ptr) (start : Ptr) : Ptr → Type 0 where
  here : Leads edges start start
  step : {p : Ptr} (q : Ptr) → Leads edges start p → q ∈ edges p → Leads edges start q

-- The node is one of those to visit.
unfoldable pub among : List Visit → Ptr → Bool
among [] p = false
among ((q, parent) ∷ rest) p = q == p || among rest p

-- No node is visited twice.
unfoldable pub distinct : List Visit → Bool
unfolding among
distinct [] = true
distinct ((q, parent) ∷ rest) = not (among rest q) && distinct rest

-- The parent that is passed refers to the node; only the start has none.
unfoldable pub Linked : (Ptr → List Ptr) → Ptr → Ptr → Option Ptr → Type 0
Linked edges start p none = p ≡ start
Linked edges start p (some q) = p ∈ edges q

unfoldable pub AllLinked : (Ptr → List Ptr) → Ptr → List Visit → Type 0
unfolding Linked
AllLinked edges start [] = start ≡ start
AllLinked edges start ((p, parent) ∷ rest) =
    Linked edges start p parent × AllLinked edges start rest

length-submit : (xs traced : List Ptr) → length (submit xs traced) ≤ length xs + length traced
unfolding submit add_node
length-submit [] traced = omega arith
length-submit (x ∷ xs) traced = ground (arith, length-submit xs (add_node x traced))

pub length-trace_node : (h : GcHeap) (p : Ptr) → length (trace_node h p) ≤ length (h.payload p)
unfolding trace_node
length-trace_node h p = omega (arith, length-submit (h.payload p) [])

among-append : (xs ys : List Visit) (p : Ptr) → among (xs ++ ys) p ≡ (among xs p || among ys p)
unfolding among
among-append [] ys p = refl
among-append ((q, parent) ∷ xs) ys p = ground (arith, among-append xs ys p)

pub among-push_children :
    (h : GcHeap) (current : Ptr) (cs : List Ptr) (queue : List Visit) (p : Ptr)
    → among (push_children h current cs queue) p
      ≡ (among queue p || contains cs p && not (h.mem p).traverse_visited)
unfolding push_children among
among-push_children h current [] queue p = ground arith
among-push_children h current (c ∷ cs) queue p = elim (Bool-cases (h.mem c).traverse_visited) [
  | inl seen ↦ ground (arith, seen, among-push_children h current cs queue p, ==_iff c p)
  | inr new ↦ ground (
    arith,
    new,
    among-push_children h current cs (queue ++ ((c, some current) ∷ [])) p,
    among-append queue ((c, some current) ∷ []) p,
    ==_iff c p,
  )
]

pub length-push_children :
    (h : GcHeap) (current : Ptr) (cs : List Ptr) (queue : List Visit)
    → length (push_children h current cs queue) ≤ length queue + length cs
unfolding push_children
length-push_children h current [] queue = omega arith
length-push_children h current (c ∷ cs) queue = elim (Bool-cases (h.mem c).traverse_visited) [
  | inl seen ↦ ground (arith, seen, length-push_children h current cs queue)
  | inr new ↦ ground (
    arith,
    new,
    length-push_children h current cs (queue ++ ((c, some current) ∷ [])),
    length-append queue ((c, some current) ∷ []),
  )
]

AllLinked-append :
    (edges : Ptr → List Ptr) (start : Ptr) (xs : List Visit) (p q : Ptr)
    → AllLinked edges start xs
    → p ∈ edges q
    → AllLinked edges start (xs ++ ((p, some q) ∷ []))
unfolding AllLinked Linked
AllLinked-append edges start [] p q l e = (e, refl)
AllLinked-append edges start (x ∷ xs) p q l e = (l.0, AllLinked-append edges start xs p q l.1 e)

AllLinked-push_children :
    (edges : Ptr → List Ptr) (start : Ptr) (h : GcHeap) (current : Ptr) (cs : List Ptr)
    (queue : List Visit)
    → ((c : Ptr) → c ∈ cs → c ∈ edges current)
    → AllLinked edges start queue
    → AllLinked edges start (push_children h current cs queue)
unfolding push_children
AllLinked-push_children edges start h current [] queue inside l = l
AllLinked-push_children edges start h current (c ∷ cs) queue inside l =
    let deeper : (d : Ptr) → d ∈ cs → d ∈ edges current = λ d i. inside d (ground arith) in
    elim (Bool-cases (h.mem c).traverse_visited) [
      | inl seen ↦ rw seen (AllLinked-push_children edges start h current cs queue deeper l)
      | inr new ↦ rw new (
          AllLinked-push_children edges start h current cs (queue ++ ((c, some current) ∷ []))
            deeper
            (AllLinked-append edges start queue c current l
              (inside c (ground (arith, ==_iff c c)))))
    ]

-- What holds of the loop between two turns, `h` the heap at its start.
module _ (h : GcHeap) (start : Ptr) (filter : Option ℕ) where
  -- The traversal has come to the node.
  abbrev pub came : Traversal → Ptr → Bool
  came s p = (s.heap.mem p).traverse_visited && not (h.mem p).traverse_visited

  pub record IsSearch (queue : List Visit) (s : Traversal) : Type 0 where
    pub payload : (p : Ptr) → s.heap.payload p ≡ h.payload p
    pub owners : (p : Ptr) → (s.heap.mem p).partition_id ≡ (h.mem p).partition_id
    pub mono :
        (p : Ptr) → (h.mem p).traverse_visited ≡ true → (s.heap.mem p).traverse_visited ≡ true
    pub queued : (p : Ptr) → among queue p ≡ true → Leads h.payload start p
    pub sound : (p : Ptr) → came s p ≡ true → Leads h.payload start p
    pub called : (p : Ptr) → among s.calls p ≡ (came s p && selects filter (h.mem p).partition_id)
    pub closed :
        (p c : Ptr)
        → came s p ≡ true
        → c ∈ h.payload p
        → ((s.heap.mem c).traverse_visited || among queue c) ≡ true
    pub started : ((s.heap.mem start).traverse_visited || among queue start) ≡ true
    pub once : distinct s.calls ≡ true
    pub front : AllLinked h.payload start queue
    pub linked : AllLinked h.payload start s.calls

  old_front :
      (current : Ptr) (parent : Option Ptr) (queue : List Visit) (s : Traversal)
      → IsSearch ((current, parent) ∷ queue) s
      → (s.heap.mem current).traverse_visited ≡ true
      → IsSearch queue (record s { queue = queue })
  unfolding among AllLinked
  old_front current parent queue s v seen = record {
    payload = v.payload;
    owners = v.owners;
    mono = v.mono;
    queued = λ p i. v.queued p (ground arith);
    sound = v.sound;
    called = v.called;
    closed = λ p c k i. ground (arith, v.closed p c k i, ==_iff current c, seen);
    started = ground (arith, v.started, ==_iff current start, seen);
    once = v.once;
    front = v.front.1;
    linked = v.linked;
  }

  new_front :
      (current : Ptr) (parent : Option Ptr) (queue : List Visit) (s : Traversal)
      → IsSearch ((current, parent) ∷ queue) s
      → (s.heap.mem current).traverse_visited ≡ false
      → let s1 = visit filter current parent queue s in IsSearch s1.queue s1
  unfolding among AllLinked distinct visit
  new_front current parent queue s v new =
      let g = set_traverse_visited s.heap current true in
      let at : Leads h.payload start current =
        v.queued current (ground (arith, ==_iff current current)) in
      let children : (c : Ptr)
          → contains (trace_node g current) c ≡ contains (h.payload current) c =
        λ c. contains-trace_node g current c ∙ ap (λ l. contains l c) (v.payload current) in
      let pushed = λ (c : Ptr). among-push_children g current (trace_node g current) queue c in
      record {
        payload = v.payload;
        owners = λ p. ground (arith, v.owners p, v.owners current, ==_iff current p);
        mono = λ p e. ground (arith, v.mono p e);
        queued = λ p i. elim (Bool-cases (contains (h.payload current) p)) [
          | inl edge ↦ step p at edge
          | inr differs ↦ v.queued p (ground (arith, pushed p, children p, differs, i))
        ];
        sound = λ p k. elim (Bool-cases (current == p)) [
          | inl same ↦ subst (λ q. Leads h.payload start q) ((==_iff current p).0 same) at
          | inr differs ↦ v.sound p (ground (arith, differs, k))
        ];
        called = λ p.
            ground (arith, v.called p, v.owners current, ==_iff current p, v.mono current, new);
        closed = λ p c k i.
            ground
              (arith, pushed c, children c, v.closed p c, i, k, ==_iff current p, ==_iff current c);
        started = ground (arith, v.started, pushed start, ==_iff current start);
        once = ground (arith, v.once, v.called current, new);
        front =
            AllLinked-push_children h.payload start g current (trace_node g current) queue
              (λ c i. sym (children c) ∙ i) v.front.1;
        linked = elim (Bool-cases (selects filter (g.mem current).partition_id)) [
          | inl chosen ↦ rw chosen (v.front.0, v.linked)
          | inr differs ↦ rw differs v.linked
        ];
      }

  pub turn_marked :
      (current : Ptr) (parent : Option Ptr) (queue : List Visit) (s : Traversal)
      → (s.heap.mem current).traverse_visited ≡ true
      → turn filter current parent queue s ≡ record s { queue = queue }
  unfolding turn
  turn_marked current parent queue s e =
      ap (λ b. if b then record s { queue = queue } else visit filter current parent queue s) e

  pub turn_unmarked :
      (current : Ptr) (parent : Option Ptr) (queue : List Visit) (s : Traversal)
      → (s.heap.mem current).traverse_visited ≡ false
      → turn filter current parent queue s ≡ visit filter current parent queue s
  unfolding turn
  turn_unmarked current parent queue s e =
      ap (λ b. if b then record s { queue = queue } else visit filter current parent queue s) e

  pub turn-IsSearch :
      (current : Ptr) (parent : Option Ptr) (queue : List Visit) (s : Traversal)
      → IsSearch ((current, parent) ∷ queue) s
      → let s1 = turn filter current parent queue s in IsSearch s1.queue s1
  turn-IsSearch current parent queue s v = elim (Bool-cases (s.heap.mem current).traverse_visited) [
    | inl seen ↦
        subst (λ t. IsSearch t.queue t) (sym (turn_marked current parent queue s seen))
          (old_front current parent queue s v seen)
    | inr new ↦
        subst (λ t. IsSearch t.queue t) (sym (turn_unmarked current parent queue s new))
          (new_front current parent queue s v new)
  ]
