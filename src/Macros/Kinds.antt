-- ===== src/Macros/Kinds.antt =====
-- What the attributes of a field mean.
use gc_lite.Base.{List, [], ◌∷◌, Option, none, some, if◌then◌else◌}
use gc_lite.Macros.{SynError, SynResult, ok, err}
use gc_lite.Macros.Derive.{Meta, Attribute, FieldKind, meta_kind}

-- What the `gc` attributes of a field say, in order: the kinds and the errors.
unfoldable pub said : List Meta → List (SynResult FieldKind) → List (SynResult FieldKind)
unfolding meta_kind
said [] rest = rest
said (meta ∷ metas) rest = meta_kind meta ∷ said metas rest

unfoldable pub malformed :
    SynResult (Unit {0}) → List (SynResult FieldKind) → List (SynResult FieldKind)
malformed (ok u) rest = rest
malformed (err e) rest = err e ∷ rest

unfoldable pub all_said : List Attribute → List (SynResult FieldKind)
unfolding said malformed
all_said [] = []
all_said (attr ∷ attrs) =
    let rest = all_said attrs in
    if attr.is_gc then said attr.metas (malformed attr.rest rest) else rest

-- The first two of them decide: none means that the field is traced, one is what it says, two are too
-- many; an error is reported, the first that stands among the two.
unfoldable pub verdict : List (SynResult FieldKind) → SynResult FieldKind
verdict [] = ok FieldKind.trace_kind
verdict (err e ∷ rest) = err e
verdict (ok kind ∷ []) = ok kind
verdict (ok kind ∷ err e ∷ rest) = err e
verdict (ok kind ∷ ok again ∷ rest) = err SynError.duplicate_attribute

-- The same, from a kind that was seen.
after : List (SynResult FieldKind) → Option FieldKind → SynResult (Option FieldKind)
after [] kind = ok kind
after (err e ∷ rest) kind = err e
after (ok k ∷ rest) none = after rest (some k)
after (ok k ∷ rest) (some old) = err SynError.duplicate_attribute
