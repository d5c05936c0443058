-- ===== src/Js.antt =====
-- The values of the program's language that a request, a token payload or a raw query row holds:
-- what its `unknown` stands for. Numbers are the naturals, which is all that this code compares.
use edtech_lms_api.Prelude.{
  ℕ, String, Bool, true, false, Option, none, some, List, [], ◌∷◌, ◌==◌, if◌then◌else◌, ◌≡◌, refl,
}

mutual
  pub data Value : Type 0 where
    undefined null : Value
    bool : Bool → Value
    num : ℕ → Value
    str : String → Value
    arr : Values → Value
    obj : Fields → Value

  pub data Values : Type 0 where
    nil : Values
    cons : Value → Values → Values

  pub data Fields : Type 0 where
    end : Fields
    field : String → Value → Fields → Fields

abbrev pub values : Values → List Value
values nil = []
values (cons v vs) = v ∷ values vs

-- `Object.keys(fields).length`
abbrev pub count_keys : Fields → ℕ
count_keys end = 0
count_keys (field k v fs) = ℕ.suc (count_keys fs)

-- `fields[k]`
unfoldable pub get_field : String → Fields → Value
get_field k end = undefined
get_field k (field j v fs) = if j == k then v else get_field k fs

-- `value.k`; a value that is no object has no such property
unfoldable pub get : String → Value → Value
unfolding get_field
get k (obj fs) = get_field k fs
get k _ = undefined

-- `{ ...fields, k: v }`
unfoldable pub put : String → Value → Fields → Fields
put k v end = field k v end
put k v (field j w fs) = if j == k then field j v fs else field j w (put k v fs)

-- `{ ...fields, ...more }`
unfoldable pub spread : Fields → Fields → Fields
unfolding put
spread fs end = fs
spread fs (field k v more) = spread (put k v fs) more

-- `typeof value === "object" && value !== null`
abbrev pub is_object : Value → Bool
is_object (arr vs) = true
is_object (obj fs) = true
is_object _ = false

-- `value !== undefined && value !== null`
abbrev pub is_present : Value → Bool
is_present undefined = false
is_present null = false
is_present _ = true

abbrev pub is_undefined : Value → Bool
is_undefined undefined = true
is_undefined _ = false

abbrev pub is_null : Value → Bool
is_null null = true
is_null _ = false

-- `typeof value === "boolean"`
abbrev pub is_boolean : Value → Bool
is_boolean (bool b) = true
is_boolean _ = false

-- `value === true`
abbrev pub is_true : Value → Bool
is_true (bool b) = b
is_true _ = false

-- The text of a value, if `typeof value === "string"`.
abbrev pub as_string : Value → Option String
as_string (str s) = some s
as_string _ = none

-- `typeof value === "string" && value.length > 0`
abbrev pub non_empty : Value → Bool
non_empty (str s) = if s == "" then false else true
non_empty _ = false

-- A column that may be NULL, as a property of a JSON payload.
abbrev pub nullable : Option String → Value
nullable none = null
nullable (some s) = str s

-- `values.filter((p) => typeof p === "string")`
abbrev pub strings : List Value → List String
strings [] = []
strings (str s ∷ vs) = s ∷ strings vs
strings (_ ∷ vs) = strings vs

abbrev pub array_of : List String → Values
array_of [] = nil
array_of (s ∷ ss) = cons (str s) (array_of ss)

pub strings-array_of : (ss : List String) → strings (values (array_of ss)) ≡ ss
strings-array_of [] = refl
strings-array_of (s ∷ ss) = λ i. s ∷ strings-array_of ss i
