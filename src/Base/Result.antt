-- ===== src/Base/Result.antt =====
-- The `error` values of the Go code (internal/util/errors.go and database/sql), and the
-- results of fallible functions. A panic is an error of its own: it is what unwinds the caller.
use Prim.Native.String.{String}
use mathlib.Core.Bool.{Bool, true, false}

pub data Error : Type 0 where
  no_rows : Error
  public : String → Error
  internal : String → Error
  panic : String → Error

-- What a function of Go gives that returns a value and an error: one of the two.
pub data Result {ℓ} (A : Type ℓ) : Type ℓ where
  err : Error → Result A
  ok : A → Result A

module _ {ℓ κ} {A : Type ℓ} {B : Type κ} where
  -- `if err != nil { return err }`, and else the rest of the function.
  infixl 5 ◌>>=◌
  abbrev pub ◌>>=◌ : Result A → (A → Result B) → Result B
  first >>= rest = elim first [ err e ↦ err e | ok a ↦ rest a ]

-- An early return with an error unless the test holds.
abbrev pub ensure : Bool → Error → Result (Unit {0})
ensure test e = elim test [ true ↦ ok tt | false ↦ err e ]

infixl 5 ◌>>◌
abbrev pub ◌>>◌ {κ} : {B : Type κ} → Result (Unit {0}) → Result B → Result B
first >> rest = elim first [ err e ↦ err e | ok _ ↦ rest ]

module _ {ℓ} {A : Type ℓ} where
  abbrev pub is_ok : Result A → Bool
  is_ok r = elim r [ ok _ ↦ true | err _ ↦ false ]

  abbrev pub is_panic : Result A → Bool
  is_panic (ok _) = false
  is_panic (err (panic _)) = true
  is_panic (err _) = false
