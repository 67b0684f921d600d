-- ===== src/Arena/FirstFit.antt =====
-- Allocation from the free list of an arena.
use gc_lite.Base.{
  some-inj, ℕ, ◌+◌, ◌≡◌, ◌<◌, ◌≤◌, refl, Bool, true, false, ◌&&◌, ◌||◌, List, [], ◌∷◌, arith,
  Bool-cases, inl, inr, subst, some, none, leb, ltb, Option-cases,
}
use gc_lite.Arena.{alloc_from_free_list}
use gc_lite.Arena.Cover.{free_covers}

-- The byte `y` is in the block of `size` bytes at `p`.
abbrev pub inside : ℕ → ℕ → ℕ → Bool
inside p size y = leb p y && ltb y (p + size)

-- No byte is in two blocks of the list.
unfoldable pub Apart : List (ℕ × ℕ) → Type 0
Apart [] = Unit
Apart ((p, size) ∷ l) = ((y : ℕ) → inside p size y ≡ true → free_covers l y ≡ false) × Apart l

-- What a successful search gives: a block large enough, cut out of the list.
pub record Found (needed : ℕ) (l : List (ℕ × ℕ)) (p : ℕ) (left : List (ℕ × ℕ)) : Type 0 where
  pub size : ℕ
  pub enough : needed ≤ size
  pub split : (y : ℕ) → free_covers l y ≡ (inside p size y || free_covers left y)
  pub apart : (y : ℕ) → inside p size y ≡ true → free_covers left y ≡ false
  pub rest : Apart left

Found-here :
    (needed q size : ℕ) (l : List (ℕ × ℕ))
    → needed ≤ size
    → Apart ((q, size) ∷ l)
    → Found needed ((q, size) ∷ l) q l
unfolding Apart free_covers
Found-here needed q size l le (away, a) = record {
  size = size;
  enough = le;
  split = λ y. refl;
  apart = away;
  rest = a;
}

Apart-tail : (q size : ℕ) (l : List (ℕ × ℕ)) → Apart ((q, size) ∷ l) → Apart l
unfolding Apart
Apart-tail q size l (away, a) = a

pub TooSmall : ℕ → List (ℕ × ℕ) → Type 0
TooSmall needed [] = Unit
TooSmall needed ((q, size) ∷ l) = (size < needed) × TooSmall needed l

Found-later :
    (needed q size p : ℕ) (l left : List (ℕ × ℕ))
    → Apart ((q, size) ∷ l)
    → Found needed l p left
    → Found needed ((q, size) ∷ l) p ((q, size) ∷ left)
unfolding Apart free_covers
Found-later needed q size p l left (away, a) f = record {
  size = f.size;
  enough = f.enough;
  split = λ y. ground (arith, f.split y);
  apart = λ y i. ground (arith, f.apart y i, f.split y, away y);
  rest = (λ y i. ground (arith, f.split y, away y i), f.rest);
}

-- Where the blocks of the free list are apart, `alloc_from_free_list` takes a block of at least the
-- bytes needed: the list covered the bytes of the block and those of what is left and no others, no
-- byte of the block is in what is left, and what is left is apart again.
pub alloc_from_free_list-Found :
    (needed : ℕ) (l : List (ℕ × ℕ)) (p : ℕ) (left : List (ℕ × ℕ))
    → Apart l
    → alloc_from_free_list needed l ≡ some (p, left)
    → Found needed l p left
unfolding alloc_from_free_list
alloc_from_free_list-Found needed [] p left a e = cc
alloc_from_free_list-Found needed ((q, size) ∷ l) p left a e = elim (Bool-cases (leb needed size)) [
  | inl fits ↦
      subst (λ (r : ℕ × List (ℕ × ℕ)). Found needed ((q, size) ∷ l) r.0 r.1)
        (some-inj (rw fits at e)) (Found-here needed q size l (ground arith) a)
  | inr small ↦ elim (Option-cases (alloc_from_free_list needed l)) [
    | inl none_ ↦ cc (rw (small, none_) at e)
    | inr ((r, rest), found) ↦
        subst (λ (x : ℕ × List (ℕ × ℕ)). Found needed ((q, size) ∷ l) x.0 x.1)
          (some-inj (rw (small, found) at e))
          (Found-later needed q size r l rest a
            (alloc_from_free_list-Found needed l r rest (Apart-tail q size l a) found))
  ]
]

-- Where it finds none, no block of the list has the bytes needed.
pub alloc_from_free_list-none :
    (needed : ℕ) (l : List (ℕ × ℕ)) → alloc_from_free_list needed l ≡ none → TooSmall needed l
unfolding alloc_from_free_list TooSmall
alloc_from_free_list-none needed [] e = tt
alloc_from_free_list-none needed ((q, size) ∷ l) e = elim (Bool-cases (leb needed size)) [
  | inl fits ↦ cc (rw fits at e)
  | inr small ↦ elim (Option-cases (alloc_from_free_list needed l)) [
    | inl none_ ↦ (ground arith, alloc_from_free_list-none needed l none_)
    | inr ((r, rest), found) ↦ cc (rw (small, found) at e)
  ]
]
