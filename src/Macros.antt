-- ===== src/Macros.antt =====
-- The procedural macros (gc-lite-macros/src/lib.rs): their results.
pub mod Parse
pub mod Table
pub mod Registry
pub mod Derive
pub mod Kinds
pub mod Body
pub mod Effect
pub mod Accepts
use gc_lite.Base.{ℕ, Bool, true, false, ◌≡◌, refl}

-- The errors that the macros report. `syntax` is an error of the parser they call.
pub data SynError : Type 0 where
  syntax : ℕ → SynError
  expected_crate_path expected_drop_pass drop_pass_range too_many_types : SynError
  unknown_attribute duplicate_attribute union_input : SynError

pub data SynResult {ℓ} (A : Type ℓ) : Type ℓ where
  ok : A → SynResult A
  err : SynError → SynResult A

infixl 5 ◌>>=◌ ◌>>◌
abbrev pub ◌>>=◌ {ℓ κ} : {A : Type ℓ} {B : Type κ} → SynResult A → (A → SynResult B) → SynResult B
ok a >>= f = f a
err e >>= f = err e

abbrev pub ◌>>◌ {ℓ} : {B : Type ℓ} → SynResult (Unit {0}) → SynResult B → SynResult B
m >> k = m >>= λ _. k

-- An early return with an error.
abbrev pub guard : Bool → SynError → SynResult (Unit {0})
guard true e = ok tt
guard false e = err e

-- A chain of steps that succeeds has a first step that does.
pub >>=_ok {ℓ κ} :
    {A : Type ℓ} {B : Type κ} (m : SynResult A) (f : A → SynResult B) {b : B}
    → (m >>= f) ≡ ok b
    → (a : A) × (m ≡ ok a) × (f a ≡ ok b)
>>=_ok (ok a) f e = (a, refl, e)
>>=_ok (err x) f e = absurd cc

pub guard_ok : (b : Bool) (x : SynError) (u : Unit {0}) → guard b x ≡ ok u → b ≡ true
guard_ok true x u e = refl
guard_ok false x u e = absurd cc
