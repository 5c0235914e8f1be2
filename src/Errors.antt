-- ===== src/Errors.antt =====
-- src/errors.rs: the error type of every fallible operation, its display, and the result type with
-- the chaining that `?` stands for.
use Prim.Native.String
use tauri_vpn_plugin.Common.{
  String, Bool, ◌≡◌, refl, ◌⊎◌, inl, inr, Option, none, some, if◌then◌else◌,
}

pub data VpnError : Type 0 where
  unsupported : String → VpnError
  invalid_profile : String → VpnError
  import_failed : String → VpnError
  already_running : VpnError
  not_running : VpnError
  engine : String → VpnError
  platform : String → VpnError
  io : String → VpnError

infixr 65 ◌+s◌
abbrev pub ◌+s◌ : String → String → String
s +s t = String.◌++◌ s t

-- The texts of the `#[error(…)]` attributes.
unfoldable pub display : VpnError → String
display (unsupported s) = "unsupported protocol or feature: " +s s
display (invalid_profile s) = "invalid VPN profile: " +s s
display (import_failed s) = "import failed: " +s s
display already_running = "engine is already running"
display not_running = "engine is not running"
display (engine s) = "engine failed: " +s s
display (platform s) = s
display (io s) = "io error: " +s s

-- `From<std::io::Error>` and `From<url::ParseError>`, of the errors' texts.
abbrev pub from_io_error : String → VpnError
from_io_error s = io s

abbrev pub from_parse_error : String → VpnError
from_parse_error s = import_failed s

pub data Result {ℓ} (A : Type ℓ) : Type ℓ where
  ok : A → Result A
  err : VpnError → Result A

-- The `?` operator: an error is returned at once.
infixl 5 ◌>>◌ ◌>>=◌
abbrev pub ◌>>=◌ {ℓ κ} : {S : Type ℓ} {T : Type κ} → Result S → (S → Result T) → Result T
ok value >>= next = next value
err error >>= next = err error

abbrev pub ◌>>◌ {ℓ} : {T : Type ℓ} → Result (Unit {0}) → Result T → Result T
ok u >> next = next
err error >> next = err error

-- `ok_or_else`
abbrev pub ok_or {ℓ} : {A : Type ℓ} → Option A → VpnError → Result A
ok_or none e = err e
ok_or (some a) e = ok a

-- `if bad { return Err(e) }`
abbrev pub ensure : Bool → VpnError → Result (Unit {0})
ensure bad e = if bad then err e else ok tt

-- The value of a success.
abbrev pub to_option {ℓ} : {A : Type ℓ} → Result A → Option A
to_option (ok a) = some a
to_option (err e) = none

-- A chain that succeeds has succeeded at its first part.
pub >>=-eq-ok {ℓ κ} :
    {S : Type ℓ} {T : Type κ} (first : Result S) (next : S → Result T) {t : T}
    → (first >>= next) ≡ ok t
    → (s : S) × (first ≡ ok s) × (next s ≡ ok t)
>>=-eq-ok (err error) next done = cc
>>=-eq-ok (ok s) next done = (s, refl, done)

pub >>-eq-ok {ℓ} :
    {T : Type ℓ} (first : Result (Unit {0})) (next : Result T) {t : T}
    → (first >> next) ≡ ok t
    → next ≡ ok t
>>-eq-ok (err error) next done = cc
>>-eq-ok (ok u) next done = done

pub Result-cases {ℓ} :
    {A : Type ℓ} (r : Result A) → ((a : A) × (r ≡ ok a)) ⊎ ((e : VpnError) × (r ≡ err e))
Result-cases (ok a) = inl (a, refl)
Result-cases (err e) = inr (e, refl)
