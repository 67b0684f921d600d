-- ===== src/Macros/Registry.antt =====
-- The table that the macro emits is one that the collector can rely on.
use gc_lite.Base.{
  ℕ, zero, suc, ◌+◌, ◌^◌, ◌%◌, ◌≡◌, ◌≤◌, ◌<◌, ◌⊎◌, inl, inr, refl, ap, ◌∙◌, Bool, true, ◌&&◌, ◌||◌,
  List, [], ◌∷◌, none, some, leb, ltb, ◌==◌, length, contains, get_elem?, get_or, arith, ==_iff,
  Bool-cases, Option-cases,
}
use gc_lite.Gctype.{layout_size_of, type_info, no_type}
use gc_lite.Sweep.Accounts.{IsRegistry}
use gc_lite.Macros.{SynError, ok, err}
use gc_lite.Macros.Table.{
  Entry, TypeTable, unwrap_or, insert, sort, dedup_after, dedup, type_entry, passes_of, ids_from,
  infos, gc_type_table_internal,
}

-- Ascending, each element below the next.
unfoldable pub ascends_from : ℕ → List ℕ → Bool
ascends_from x [] = true
ascends_from x (y ∷ ys) = ltb x y && ascends_from y ys

unfoldable pub ascends : List ℕ → Bool
unfolding ascends_from
ascends [] = true
ascends (x ∷ xs) = ascends_from x xs

-- Each element at most the next.
sorted_from : ℕ → List ℕ → Bool
sorted_from x [] = true
sorted_from x (y ∷ ys) = leb x y && sorted_from y ys

sorted : List ℕ → Bool
unfolding sorted_from
sorted [] = true
sorted (x ∷ xs) = sorted_from x xs

insert-sorted_from :
    (x y : ℕ) (ys : List ℕ) → sorted_from y ys ≡ true → y ≤ x → sorted_from y (insert x ys) ≡ true
unfolding insert sorted_from
insert-sorted_from x y [] s le = ground arith
insert-sorted_from x y (z ∷ zs) s le = ground (arith, insert-sorted_from x z zs)

insert-sorted : (x : ℕ) (ys : List ℕ) → sorted ys ≡ true → sorted (insert x ys) ≡ true
unfolding insert sorted sorted_from
insert-sorted x [] s = refl
insert-sorted x (y ∷ ys) s = ground (arith, insert-sorted_from x y ys s)

sort-sorted : (xs : List ℕ) → sorted (sort xs) ≡ true
unfolding sort sorted
sort-sorted [] = refl
sort-sorted (x ∷ xs) = insert-sorted x (sort xs) (sort-sorted xs)

dedup_after-ascends :
    (x : ℕ) (xs : List ℕ) → sorted_from x xs ≡ true → ascends_from x (dedup_after x xs) ≡ true
unfolding dedup_after ascends_from sorted_from
dedup_after-ascends x [] s = refl
dedup_after-ascends x (y ∷ ys) s = ground (arith, dedup_after-ascends y ys, ==_iff x y)

dedup-ascends : (xs : List ℕ) → sorted xs ≡ true → ascends (dedup xs) ≡ true
unfolding dedup ascends sorted
dedup-ascends [] s = refl
dedup-ascends (x ∷ xs) s = dedup_after-ascends x xs s

contains-insert :
    (x : ℕ) (ys : List ℕ) (a : ℕ) → contains (insert x ys) a ≡ (x == a || contains ys a)
unfolding insert
contains-insert x [] a = refl
contains-insert x (y ∷ ys) a = ground (arith, contains-insert x ys a)

contains-sort : (xs : List ℕ) (a : ℕ) → contains (sort xs) a ≡ contains xs a
unfolding sort
contains-sort [] a = refl
contains-sort (x ∷ xs) a = ground (arith, contains-insert x (sort xs) a, contains-sort xs a)

contains-dedup_after :
    (x : ℕ) (xs : List ℕ) (a : ℕ)
    → (x == a || contains (dedup_after x xs) a) ≡ (x == a || contains xs a)
unfolding dedup_after
contains-dedup_after x [] a = refl
contains-dedup_after x (y ∷ ys) a = ground (arith, contains-dedup_after y ys a, ==_iff x y)

contains-dedup : (xs : List ℕ) (a : ℕ) → contains (dedup xs) a ≡ contains xs a
unfolding dedup
contains-dedup [] a = refl
contains-dedup (x ∷ xs) a = contains-dedup_after x xs a

module _ (head_size head_align : ℕ) where
  -- The entry at an index, in the table of the types.
  info_at :
      (es : List Entry) (i : ℕ) (e : Entry)
      → get_elem? es i ≡ some e
      → get_or (infos head_size head_align es (passes_of head_size head_align es)) i no_type
        ≡ type_entry head_size head_align e.0 (unwrap_or 0 e.1)
  unfolding infos passes_of
  info_at [] i e at = absurd cc
  info_at (x ∷ es) zero e at =
      let same : x ≡ e = ground (arith, at) in
      ap (λ y. type_entry head_size head_align y.0 (unwrap_or 0 y.1)) same
  info_at (x ∷ es) (suc i) e at = info_at es i e at

  past_end :
      (es : List Entry) (i : ℕ)
      → get_elem? es i ≡ none
      → get_or (infos head_size head_align es (passes_of head_size head_align es)) i no_type
        ≡ no_type
  unfolding infos passes_of
  past_end [] i at = refl
  past_end (x ∷ es) zero at = absurd cc
  past_end (x ∷ es) (suc i) at = past_end es i at

  length-infos :
      (es : List Entry)
      → length (infos head_size head_align es (passes_of head_size head_align es)) ≡ length es
  unfolding infos passes_of
  length-infos [] = refl
  length-infos (x ∷ es) = ap suc (length-infos es)

  id_at :
      (k : ℕ) (es : List Entry) (i : ℕ)
      → i < length es
      → get_elem? (ids_from head_size head_align k es) i ≡ some ((k + i) % 256)
  unfolding ids_from
  id_at k [] i lt = absurd (omega arith)
  id_at k (x ∷ es) zero lt = ground arith
  id_at k (x ∷ es) (suc i) lt =
      id_at (suc k) es i (omega arith) ∙ ap (λ n. some (n % 256)) (omega arith)

  pass_at :
      (es : List Entry) (i : ℕ)
      → i < length es
      → contains
          (passes_of head_size head_align es)
          (get_or
            (infos head_size head_align es (passes_of head_size head_align es))
            i
            no_type).drop_pass
        ≡ true
  unfolding infos passes_of type_entry
  pass_at [] i lt = absurd (omega arith)
  pass_at (x ∷ es) zero lt = ground (arith, ==_iff (unwrap_or 0 x.1) (unwrap_or 0 x.1))
  pass_at (x ∷ es) (suc i) lt = ground (arith, pass_at es i)

  -- The table of the entries: the collector's registry, whose passes ascend and are those that some
  -- type has; and each type at the index that is its id.
  pub record IsTable (es : List Entry) (out : TypeTable) : Type 0 where
    pub registry : IsRegistry out.registry
    pub ordered : ascends out.registry.drop_passes ≡ true
    pub used :
        (pass : ℕ)
        → contains out.registry.drop_passes pass ≡ contains (passes_of head_size head_align es) pass
    pub indexed :
        (i : ℕ) (e : Entry)
        → get_elem? es i ≡ some e
        → (get_elem? out.ids i ≡ some i)
          × (type_info out.registry i ≡ type_entry head_size head_align e.0 (unwrap_or 0 e.1))

  at-lt-length : (es : List Entry) (i : ℕ) (e : Entry) → get_elem? es i ≡ some e → i < length es
  at-lt-length [] i e at = absurd cc
  at-lt-length (x ∷ es) zero e at = omega arith
  at-lt-length (x ∷ es) (suc i) e at = omega (arith, at-lt-length es i e at)

  small_at :
      (es : List Entry) (i : ℕ)
      → ((i : ℕ) (e : Entry)
          → get_elem? es i ≡ some e
          → layout_size_of head_size head_align e.0.size e.0.align < 2 ^ 31)
      → (get_or
          (infos head_size head_align es (passes_of head_size head_align es))
          i
          no_type).layout_size
        < 2 ^ 31
  unfolding type_entry
  small_at es i fits = elim (Option-cases (get_elem? es i)) [
    | inl out ↦ rw (past_end es i out) (omega arith)
    | inr (e, at) ↦ rw (info_at es i e at) (fits i e at)
  ]

  abbrev table : List Entry → TypeTable
  table es = record {
    registry = record {
      type_info_list = infos head_size head_align es (passes_of head_size head_align es);
      drop_passes = dedup (sort (passes_of head_size head_align es));
    };
    ids = ids_from head_size head_align 0 es;
  }

  used_passes :
      (es : List Entry) (pass : ℕ)
      → contains (table es).registry.drop_passes pass
        ≡ contains (passes_of head_size head_align es) pass
  used_passes es pass =
      contains-dedup (sort (passes_of head_size head_align es)) pass
      ∙ contains-sort (passes_of head_size head_align es) pass

  table-IsTable :
      (es : List Entry)
      → ((i : ℕ) (e : Entry)
          → get_elem? es i ≡ some e
          → layout_size_of head_size head_align e.0.size e.0.align < 2 ^ 31)
      → length es ≤ 256
      → IsTable es (table es)
  table-IsTable es fits few = record {
    registry = record {
      small = λ i. small_at es i fits;
      passes = λ i lt. used_passes es _ ∙ pass_at es i (omega (arith, length-infos es, lt));
    };
    ordered = dedup-ascends _ (sort-sorted _);
    used = used_passes es;
    indexed = λ i e at. (
      id_at 0 es i (at-lt-length es i e at) ∙ ap some (omega (arith, at-lt-length es i e at)),
      info_at es i e at,
    );
  }

  -- The macro on entries whose nodes take less than 2 ^ 31 bytes each. With more than 256 entries it
  -- reports the error and emits nothing. Otherwise it emits a table in which each type stands at the
  -- index that is its id, with its own layout and its pass, 0 if none is given; every pass of a type
  -- is among the passes of the registry, which ascend, each once, and hold no other.
  pub gc_type_table_internal-IsTable :
      (es : List Entry)
      → ((i : ℕ) (e : Entry)
          → get_elem? es i ≡ some e
          → layout_size_of head_size head_align e.0.size e.0.align < 2 ^ 31)
      → ((256 < length es)
          × (gc_type_table_internal head_size head_align es ≡ err SynError.too_many_types))
        ⊎ ((out : TypeTable) × (gc_type_table_internal head_size head_align es ≡ ok out)
            × IsTable es out)
  unfolding gc_type_table_internal
  gc_type_table_internal-IsTable es fits = elim (Bool-cases (ltb 256 (length es))) [
    | inl many ↦ rw many (inl (ground arith, refl))
    | inr few ↦ rw few (inr (table es, refl, table-IsTable es fits (ground arith)))
  ]
