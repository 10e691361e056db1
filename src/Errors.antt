-- ===== src/Errors.antt =====
-- Go's `error` values as this repository makes and reads them. `api` is an error of the Kubernetes
-- client: what the code reads off it is what `errors.IsNotFound`, `errors.IsAlreadyExists` and
-- `Error()` answer. `wrap` is `fmt.Errorf("<text>: %w", err)`; every wrapping of the repository has
-- that form.
use nautikus.Prelude.{◌≡◌, String, ◌<>◌, Bool, false}

pub record ApiError : Type 0 where
  pub not_found : Bool
  pub already_exists : Bool
  pub message : String

pub data Error : Type 0 where
  api : ApiError → Error
  text : String → Error
  wrap : String → Error → Error

pub data Result {ℓ} (A : Type ℓ) : Type ℓ where
  ok : A → Result A
  err : Error → Result A

-- `err.Error()`
unfoldable pub error_message : Error → String
error_message (api e) = e.message
error_message (text s) = s
error_message (wrap s e) = s <> (": " <> error_message e)

-- `errors.IsNotFound` and `errors.IsAlreadyExists`, which look through wrapped errors.
abbrev pub is_not_found : Error → Bool
is_not_found (api e) = e.not_found
is_not_found (text s) = false
is_not_found (wrap s e) = is_not_found e

abbrev pub is_already_exists : Error → Bool
is_already_exists (api e) = e.already_exists
is_already_exists (text s) = false
is_already_exists (wrap s e) = is_already_exists e

pub ok-injective {ℓ} : {A : Type ℓ} {a b : A} → ok a ≡ ok b → a ≡ b
ok-injective h = cc

pub err-injective {ℓ} : {A : Type ℓ} {e e' : Error} → ◌≡◌ {A = Result A} (err e) (err e') → e ≡ e'
err-injective h = cc
