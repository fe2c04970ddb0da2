-- ===== src/Base/Ints.antt =====
-- Signed integers over the native numbers, for Go's int64 values, and their printing.
use Prim.Native.Nat.{ℕ, zero, suc}
use Prim.Native.String.{String}
use mathlib.Core.Option.{Option, none, some}
use mathlib.Core.Bool.{Bool, true, false}
use package.dauth.Base.Tests.{◌==◌ as nat_eq}
use package.dauth.Base.Text.{show, ◌⧺◌, parse_signed, bytes}

-- `negsuc n` is -(n + 1).
pub data ℤ : Type 0 where
  pos : ℕ → ℤ
  negsuc : ℕ → ℤ

abbrev pub int_eq : ℤ → ℤ → Bool
int_eq (pos a) (pos b) = nat_eq a b
int_eq (negsuc a) (negsuc b) = nat_eq a b
int_eq _ _ = false

-- `%d`
unfoldable pub show_int : ℤ → String
unfolding show
show_int (pos n) = show n
show_int (negsuc n) = "-" ⧺ show (suc n)

from_signed : Option (Bool × ℕ) → Option ℤ
from_signed none = none
from_signed (some (false, n)) = some (pos n)
from_signed (some (true, zero)) = some (pos zero)
from_signed (some (true, suc n)) = some (negsuc n)

-- `big.NewInt(0).SetString(s, 10)`, `none` where it is not ok.
unfoldable pub parse_int : String → Option ℤ
unfolding parse_signed from_signed
parse_int s = from_signed (parse_signed (bytes s))
