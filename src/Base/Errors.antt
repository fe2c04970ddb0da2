-- ===== src/Base/Errors.antt =====
-- Go's error values, the results of fallible code, and a state monad over them.
use Prim.Native.Nat.{ℕ}
use Prim.Native.String.{String}
use mathlib.Core.Path.{◌≡◌, refl}
use mathlib.Core.Logic.{◌⊎◌, inl, inr}
use mathlib.Core.Bool.{Bool, true, false, ◌||◌}
use text.Mathlib.Text.{◌==◌ as str_eq}
use mathlib.Core.Option.{Option, none, some}

-- `plain` is errors.New or fmt.Errorf without %w in a function, `sentinel` is a package-level error
-- that errors.Is finds, named by its text, `wrap` is fmt.Errorf with one %w, `joined` is
-- errors.Join, and the last two are a richerrors.Error with Err nil and with Err set. Where a
-- format prints another error, the text here keeps the literal part of the format.
pub data Error : Type 0 where
  plain : String → Error
  sentinel : String → Error
  wrap : String → Error → Error
  joined : Error → Error → Error
  rich : ℕ → String → Error
  rich_of : ℕ → String → Error → Error

pub data Result {ℓ} (A : Type ℓ) : Type ℓ where
  ok : A → Result A
  err : Error → Result A

or_else : Option (ℕ × String) → Option (ℕ × String) → Option (ℕ × String)
or_else (some r) other = some r
or_else none other = other

-- `errors.As` at richerrors.Error: the code and the external message of the first one in the
-- tree of errors, in depth-first order.
unfoldable pub as_rich : Error → Option (ℕ × String)
unfolding or_else
as_rich (plain m) = none
as_rich (sentinel m) = none
as_rich (wrap m e) = as_rich e
as_rich (joined e f) = or_else (as_rich e) (as_rich f)
as_rich (rich code m) = some (code, m)
as_rich (rich_of code m e) = some (code, m)

abbrev pub map_err {ℓ} : {A : Type ℓ} → (Error → Error) → Result A → Result A
map_err f (ok a) = ok a
map_err f (err e) = err (f e)

-- `if err != nil { return …, err }` before the rest of a function.
infixl 5 ◌>>=◌ ◌>>◌
abbrev pub ◌>>=◌ {ℓ κ} : {A : Type ℓ} {B : Type κ} → Result A → (A → Result B) → Result B
r >>= f = elim r [ err e ↦ err e | ok a ↦ f a ]

abbrev pub ◌>>◌ {ℓ κ} : {A : Type ℓ} {B : Type κ} → Result A → Result B → Result B
r >> rest = r >>= λ _. rest

-- An early return of an error unless the test holds.
abbrev pub require : Bool → Error → Result (Unit {0})
require true e = ok tt
require false e = err e

-- `errors.Is` at a sentinel, through the wrapping of fmt.Errorf and errors.Join.
unfoldable pub errors_is : String → Error → Bool
errors_is m (plain n) = false
errors_is m (sentinel n) = str_eq m n
errors_is m (wrap n e) = errors_is m e
errors_is m (joined e f) = errors_is m e || errors_is m f
errors_is m (rich code n) = false
errors_is m (rich_of code n e) = false

pub Result-cases {ℓ} :
    {A : Type ℓ} (r : Result A) → ((a : A) × (r ≡ ok a)) ⊎ ((e : Error) × (r ≡ err e))
Result-cases (ok a) = inl (a, refl)
Result-cases (err e) = inr (e, refl)

pub >>=_ok {ℓ κ} :
    {A : Type ℓ} {B : Type κ} (r : Result A) (f : A → Result B) (b : B)
    → (r >>= f) ≡ ok b
    → (a : A) × (r ≡ ok a) × (f a ≡ ok b)
>>=_ok (ok a) f b h = (a, refl, h)
>>=_ok (err e) f b h = cc

pub require_ok {κ} :
    {B : Type κ} (t : Bool) (e : Error) (rest : Result B) (b : B)
    → (require t e >> rest) ≡ ok b
    → (t ≡ true) × (rest ≡ ok b)
require_ok true e rest b h = (refl, h)
require_ok false e rest b h = cc

pub map_err_ok {ℓ} :
    {A : Type ℓ} (f : Error → Error) (r : Result A) (a : A) → map_err f r ≡ ok a → r ≡ ok a
map_err_ok f (ok b) a h = h
map_err_ok f (err e) a h = cc
