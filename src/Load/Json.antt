-- ===== src/Load/Json.antt =====
-- The values of nlohmann::json that src/config.cpp asks for, and the questions. A parsed object's
-- members are its sorted keys; a number that is no integer has no value here.
use c_item.Base.{
  ℕ, ◌≡◌, refl, Bool, true, false, ◌&&◌, ◌||◌, Option, none, some, List, [], ◌∷◌, if◌then◌else◌,
}
use c_item.Base.Text.{eq_bytes}
use c_item.Load.Result.{Result, ok, throws, ConfigError, Post}

-- A 64-bit signed integer.
pub data ℤ : Type 0 where
  pos negsuc : ℕ → ℤ

mutual
  pub data Json : Type 0 where
    null_value number_float : Json
    boolean : Bool → Json
    number_unsigned : ℕ → Json
    number_integer : ℤ → Json
    string : List ℕ → Json
    array : Elements → Json
    object : Members → Json

  pub data Elements : Type 0 where
    no_elements : Elements
    element : Json → Elements → Elements

  pub data Members : Type 0 where
    no_members : Members
    member : List ℕ → Json → Members → Members

abbrev pub elements : Elements → List Json
elements no_elements = []
elements (element v vs) = v ∷ elements vs

abbrev pub keys : Members → List (List ℕ)
keys no_members = []
keys (member k v ms) = k ∷ keys ms

-- `contains` and `at` in one: `none` is a key that is missing.
unfoldable pub lookup : List ℕ → Members → Option Json
lookup k no_members = none
lookup k (member l v ms) = let rest = lookup k ms in if eq_bytes l k then some v else rest

-- A test and the `get` behind it in one.
abbrev pub as_object : Json → Option Members
as_object (object ms) = some ms
as_object _ = none

abbrev pub as_array : Json → Option (List Json)
as_array (array vs) = some (elements vs)
as_array _ = none

abbrev pub as_string : Json → Option (List ℕ)
as_string (string s) = some s
as_string _ = none

abbrev pub as_boolean : Json → Option Bool
as_boolean (boolean b) = some b
as_boolean _ = none

-- Membership in a set of texts.
unfoldable pub contains_text : List ℕ → List (List ℕ) → Bool
contains_text s [] = false
contains_text s (t ∷ ts) = eq_bytes s t || contains_text s ts

-- Every key is one of the names.
unfoldable pub only_keys : List (List ℕ) → List (List ℕ) → Bool
only_keys names [] = true
only_keys names (k ∷ ks) = contains_text k names && only_keys names ks

abbrev pub demand {ℓ} : {A : Type ℓ} → Option A → ConfigError → Result A
demand none why = throws why
demand (some a) why = ok a

pub Post-demand {ℓ κ} :
    {A : Type ℓ} (P : A → Type κ) (o : Option A) (why : ConfigError)
    → ((a : A) → o ≡ some a → P a)
    → Post P (demand o why)
Post-demand P none why h = tt
Post-demand P (some a) why h = h a refl
