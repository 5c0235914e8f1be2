-- ===== src/Models/Json.antt =====
-- The documents that the source builds and reads as `serde_json::Value`, with the constructors
-- that it names. A number is what its `as_u64` gives: `none` for a negative or a fractional one.
use tauri_vpn_plugin.Common.{
  ℕ, String, Bool, true, false, List, [], ◌∷◌, map, Option, none, some, ◌≡◌, refl, ap,
}
use tauri_vpn_plugin.Common.Dict.{Dict}

mutual
  pub data Value : Type 0 where
    null : Value
    bool : Bool → Value
    number : Option ℕ → Value
    string : String → Value
    array : Elems → Value
    object : Fields → Value

  pub data Elems : Type 0 where
    nil : Elems
    cons : Value → Elems → Elems

  pub data Fields : Type 0 where
    end : Fields
    field : String → Value → Fields → Fields

abbrev pub to_elems : List Value → Elems
to_elems [] = nil
to_elems (v ∷ vs) = cons v (to_elems vs)

abbrev pub to_fields : Dict String Value → Fields
to_fields [] = end
to_fields ((k, v) ∷ m) = field k v (to_fields m)

abbrev pub fields : Fields → Dict String Value
fields end = []
fields (field k v fs) = (k, v) ∷ fields fs

-- `json!([ … ])` and `json!({ … })`
abbrev pub arr : List Value → Value
arr vs = array (to_elems vs)

abbrev pub obj : Dict String Value → Value
obj m = object (to_fields m)

abbrev pub num : ℕ → Value
num n = number (some n)

abbrev pub strings : List String → Value
strings ss = arr (map string ss)

-- `json!` of an optional value
abbrev pub nullable {ℓ} : {A : Type ℓ} → (A → Value) → Option A → Value
nullable f none = null
nullable f (some a) = f a

abbrev pub opt_string : Option String → Value
opt_string = nullable string

abbrev pub as_str : Value → Option String
as_str (string s) = some s
as_str _ = none

abbrev pub as_u64 : Value → Option ℕ
as_u64 (number n) = n
as_u64 _ = none

abbrev pub is_null : Value → Bool
is_null null = true
is_null _ = false

pub fields-to_fields : (m : Dict String Value) → fields (to_fields m) ≡ m
fields-to_fields [] = refl
fields-to_fields ((k, v) ∷ m) = ap (λ r. (k, v) ∷ r) (fields-to_fields m)
