-- ===== src/Macros/Parse.antt =====
-- The input of the type table macro (gc-lite-macros/src/lib.rs, `TypeTableInput::parse`). The token
-- stream and its parser are a library's: an interface.
use gc_lite.Base.{
  ℕ, zero, suc, ◌≤◌, ◌<◌, ◌≡◌, refl, Bool, true, List, [], ◌∷◌, Option, none, some, leb, ◌&&◌,
  if◌then◌else◌, arith, Bool-cases, inl, inr, ◌⊎◌,
}
use gc_lite.Macros.{SynError, SynResult, ok, err, ◌>>=◌, ◌>>◌, guard, >>=_ok, guard_ok}

-- `ident_is` compares an identifier with a word: the two that the macro knows are numbered.
pub data Key : Type 0 where
  crate_path drop_pass : Key

pub record Syn : Type 1 where
  pub Stream : Type 0
  pub Ident : Type 0
  pub CratePath : Type 0
  pub TypeName : Type 0
  pub LitInt : Type 0
  pub is_empty : Stream → Bool
  pub peek_comma : Stream → Bool
  pub ident_is : Ident → Key → Bool
  pub parse_ident : Stream → SynResult (Ident × Stream)
  pub parse_path : Stream → SynResult (CratePath × Stream)
  pub parse_type : Stream → SynResult (TypeName × Stream)
  pub parse_lit : Stream → SynResult (LitInt × Stream)
  pub parse_eq : Stream → SynResult Stream
  pub parse_comma : Stream → SynResult Stream
  pub parse_semi : Stream → SynResult Stream
  pub base10_parse_u8 : LitInt → SynResult ℕ

module _ (syn : Syn) where
  open syn use {
    Stream, CratePath, TypeName, is_empty, peek_comma, ident_is, parse_ident, parse_path,
    parse_type, parse_lit, parse_eq, parse_comma, parse_semi, base10_parse_u8,
  }

  pub record TypeTableEntry : Type 0 where
    pub ty : TypeName
    pub drop_pass : Option ℕ

  pub record TypeTableInput : Type 0 where
    pub crate_path : CratePath
    pub entries : List TypeTableEntry

  -- `, drop_pass = N`, if there is a comma.
  unfoldable pub parse_drop_pass : Stream → SynResult (Option ℕ × Stream)
  parse_drop_pass input =
      if peek_comma input
      then (do
        s1 ← parse_comma input
        (ident, s2) ← parse_ident s1
        guard (ident_is ident Key.drop_pass) SynError.expected_drop_pass
        s3 ← parse_eq s2
        (lit, s4) ← parse_lit s3
        v ← base10_parse_u8 lit
        guard (leb v 3) SynError.drop_pass_range
        ok (some v, s4))
      else ok (none, input)

  unfoldable pub parse_entry : Stream → SynResult (TypeTableEntry × Stream)
  unfolding parse_drop_pass
  parse_entry input = do
    (ty, s1) ← parse_type input
    (pass, s2) ← parse_drop_pass s1
    s3 ← parse_semi s2
    ok (record { ty = ty; drop_pass = pass }, s3)

  -- The loop. `none` when the fuel runs out.
  unfoldable pub parse_entries : ℕ → Stream → Option (SynResult (List TypeTableEntry))
  unfolding parse_entry
  parse_entries zero input = none
  parse_entries (suc fuel) input =
      if is_empty input then some (ok []) else elim (parse_entry input) [
        | err e ↦ some (err e)
        | ok (entry, rest) ↦ elim (parse_entries fuel rest) [
          | none ↦ none
          | some r ↦ some (r >>= λ entries. ok (entry ∷ entries))
        ]
      ]

  unfoldable pub parse_head : Stream → SynResult (CratePath × Stream)
  parse_head input = do
    (key_ident, s1) ← parse_ident input
    guard (ident_is key_ident Key.crate_path) SynError.expected_crate_path
    s2 ← parse_eq s1
    (path, s3) ← parse_path s2
    s4 ← parse_semi s3
    ok (path, s4)

  unfoldable pub parse : ℕ → Stream → Option (SynResult TypeTableInput)
  unfolding parse_head parse_entries
  parse fuel input = elim (parse_head input) [
    | err e ↦ some (err e)
    | ok (path, rest) ↦ elim (parse_entries fuel rest) [
      | none ↦ none
      | some r ↦ some (r >>= λ entries. ok (record { crate_path = path; entries = entries }))
    ]
  ]

  -- What the parser promises: no step lengthens the stream, and a semicolon is taken off it.
  pub record IsSyn : Type 0 where
    pub size : Stream → ℕ
    pub ident_rest : (s : Stream) (r : _ × Stream) → parse_ident s ≡ ok r → size r.1 ≤ size s
    pub path_rest : (s : Stream) (r : CratePath × Stream) → parse_path s ≡ ok r → size r.1 ≤ size s
    pub type_rest : (s : Stream) (r : TypeName × Stream) → parse_type s ≡ ok r → size r.1 ≤ size s
    pub lit_rest : (s : Stream) (r : _ × Stream) → parse_lit s ≡ ok r → size r.1 ≤ size s
    pub eq_rest : (s r : Stream) → parse_eq s ≡ ok r → size r ≤ size s
    pub comma_rest : (s r : Stream) → parse_comma s ≡ ok r → size r ≤ size s
    pub semi_rest : (s r : Stream) → parse_semi s ≡ ok r → size r < size s

  -- Each pass that the input names is 0, 1, 2 or 3.
  unfoldable pub passes_small : List TypeTableEntry → Bool
  passes_small [] = true
  passes_small (e ∷ es) = elim e.drop_pass [ none ↦ true | some v ↦ leb v 3 ] && passes_small es

  module _ (laws : IsSyn) where
    parse_drop_pass_lem :
        (s : Stream) (out : Option ℕ × Stream)
        → parse_drop_pass s ≡ ok out
        → (laws.size out.1 ≤ laws.size s) × (elim out.0 [ none ↦ true | some v ↦ leb v 3 ] ≡ true)
    unfolding parse_drop_pass
    parse_drop_pass_lem s out e = elim (Bool-cases (peek_comma s)) [
      | inr plain ↦ ground (arith, plain, e)
      | inl comma ↦
          let (s1, e1, k1) = >>=_ok (parse_comma s) _ (rw comma at e) in
          let (i, e2, k2) = >>=_ok (parse_ident s1) _ k1 in
          let (u, e3, k3) =
            >>=_ok (guard (ident_is i.0 Key.drop_pass) SynError.expected_drop_pass) _ k2 in
          let (s3, e4, k4) = >>=_ok (parse_eq i.1) _ k3 in
          let (l, e5, k5) = >>=_ok (parse_lit s3) _ k4 in
          let (v, e6, k6) = >>=_ok (base10_parse_u8 l.0) _ k5 in
          let (u', e7, k7) = >>=_ok (guard (leb v 3) SynError.drop_pass_range) _ k6 in
          ground (
            arith,
            laws.comma_rest s s1 e1,
            laws.ident_rest s1 i e2,
            laws.eq_rest i.1 s3 e4,
            laws.lit_rest s3 l e5,
            guard_ok (leb v 3) SynError.drop_pass_range u' e7,
            k7,
          )
    ]

    parse_entry_lem :
        (s : Stream) (out : TypeTableEntry × Stream)
        → parse_entry s ≡ ok out
        → (laws.size out.1 < laws.size s)
          × (elim out.0.drop_pass [ none ↦ true | some v ↦ leb v 3 ] ≡ true)
    unfolding parse_entry
    parse_entry_lem s out e =
        let (t, e1, k1) = >>=_ok (parse_type s) _ e in
        let (d, e2, k2) = >>=_ok (parse_drop_pass t.1) _ k1 in
        let (s3, e3, k3) = >>=_ok (parse_semi d.1) _ k2 in
        ground
          (arith, laws.type_rest s t e1, parse_drop_pass_lem t.1 d e2, laws.semi_rest d.1 s3 e3, k3)

    parse_head_lem :
        (s : Stream) (out : CratePath × Stream)
        → parse_head s ≡ ok out
        → laws.size out.1 ≤ laws.size s
    unfolding parse_head
    parse_head_lem s out e =
        let (i, e1, k1) = >>=_ok (parse_ident s) _ e in
        let (u, e2, k2) =
          >>=_ok (guard (ident_is i.0 Key.crate_path) SynError.expected_crate_path) _ k1 in
        let (s2, e3, k3) = >>=_ok (parse_eq i.1) _ k2 in
        let (q, e4, k4) = >>=_ok (parse_path s2) _ k3 in
        let (s4, e5, k5) = >>=_ok (parse_semi q.1) _ k4 in
        ground (
          arith,
          laws.ident_rest s i e1,
          laws.eq_rest i.1 s2 e3,
          laws.path_rest s2 q e4,
          laws.semi_rest q.1 s4 e5,
          k5,
        )

    SynResult-cases {ℓ} :
        {A : Type ℓ} (r : SynResult A) → ((x : SynError) × (r ≡ err x)) ⊎ ((a : A) × (r ≡ ok a))
    SynResult-cases (ok a) = inr (a, refl)
    SynResult-cases (err x) = inl (x, refl)

    parse_entries-ends :
        (fuel : ℕ) (s : Stream)
        → laws.size s < fuel
        → (r : SynResult (List TypeTableEntry)) × (parse_entries fuel s ≡ some r)
          × (elim r [ err x ↦ true | ok es ↦ passes_small es ] ≡ true)
    unfolding parse_entries passes_small
    parse_entries-ends zero s lt = absurd (omega arith)
    parse_entries-ends (suc fuel) s lt = elim (Bool-cases (is_empty s)) [
      | inl empty ↦ rw empty (ok [], refl, refl)
      | inr more ↦ elim (SynResult-cases (parse_entry s)) [
        | inl (x, e) ↦ rw (more, e) (err x, refl, refl)
        | inr (out, e) ↦
            let (shorter, small) = parse_entry_lem s out e in
            let (r, e', small') = parse_entries-ends fuel out.1 (omega arith) in
            elim (SynResult-cases r) [
              | inl (x, q) ↦ rw (more, e, e', q) (err x, refl, refl)
              | inr (es, q) ↦
                  rw (more, e, e', q) (ok (out.0 ∷ es), refl, ground (arith, small, small', q))
            ]
      ]
    ]

    -- Let no step of the token parser lengthen the stream, and a semicolon shorten it. With more fuel
    -- than the stream is long, the parser of the type table ends, with an error or with a table; and
    -- each pass that the table names is 0, 1, 2 or 3.
    pub parse-passes_small :
        (fuel : ℕ) (s : Stream)
        → laws.size s < fuel
        → (r : SynResult TypeTableInput) × (parse fuel s ≡ some r)
          × (elim r [ err x ↦ true | ok input ↦ passes_small input.entries ] ≡ true)
    unfolding parse
    parse-passes_small fuel s lt = elim (SynResult-cases (parse_head s)) [
      | inl (x, e) ↦ rw (e, parse) (err x, refl, refl)
      | inr (out, e) ↦
          let (r, e', small) =
            parse_entries-ends fuel out.1 (omega (arith, parse_head_lem s out e)) in
          elim (SynResult-cases r) [
            | inl (x, q) ↦ rw (e, e', q, parse) (err x, refl, refl)
            | inr (es, q) ↦
                rw (e, e', q, parse)
                  (ok (record { crate_path = out.0; entries = es }), refl, ground (arith, small, q))
          ]
    ]
