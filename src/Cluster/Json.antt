-- ===== src/Cluster/Json.antt =====
-- The values that an interface{} holds in an unstructured Kubernetes object, Go's maps and slices
-- of them, and the type assertions with which the clients read them.
use model_registry_service.Base.{
  String, ◌≡◌, refl, ap, Bool, Option, none, some, List, [], ◌∷◌, map, ℤ, arith, if◌then◌else◌,
  str_eq, str_eq_iff,
}

-- A number that is no int64 is kept by its digits.
mutual
  pub data GoMap : Type 0 where
    no_keys : GoMap
    pair : String → Value → GoMap → GoMap

  pub data Slice : Type 0 where
    no_more : Slice
    then_value : Value → Slice → Slice

  pub data Value : Type 0 where
    text : String → Value
    int : ℤ → Value
    obj : GoMap → Value
    arr : Slice → Value
    -- a []string, which is not a []interface{}
    texts : List String → Value
    bool : Bool → Value
    float : String → Value
    null : Value

unfoldable pub items : Slice → List Value
items no_more = []
items (then_value v vs) = v ∷ items vs

unfoldable pub slice : List Value → Slice
slice [] = no_more
slice (v ∷ vs) = then_value v (slice vs)

pub items-slice : (vs : List Value) → items (slice vs) ≡ vs
unfolding items slice
items-slice [] = refl
items-slice (v ∷ vs) = ap (λ (ws : List Value). v ∷ ws) (items-slice vs)

-- m[key]
unfoldable pub get : String → GoMap → Option Value
get key no_keys = none
get key (pair k v m) = if str_eq k key then some v else get key m

-- m[key] = value
unfoldable pub put : String → Value → GoMap → GoMap
put key value no_keys = pair key value no_keys
put key value (pair k v m) = if str_eq k key then pair key value m else pair k v (put key value m)

pub get-put :
    (key k : String) (v : Value) (m : GoMap)
    → get k (put key v m) ≡ (if str_eq key k then some v else get k m)
unfolding get put
get-put key k v no_keys = refl
get-put key k v (pair j w m) =
    ground (arith, str_eq_iff key k, str_eq_iff j key, str_eq_iff j k, get-put key k v m)

-- A map literal.
unfoldable pub object : List (String × Value) → GoMap
object [] = no_keys
object ((k, v) ∷ kvs) = pair k v (object kvs)

-- An assignment under an if.
abbrev pub put_if : Bool → String → Value → GoMap → GoMap
put_if b key v m = if b then put key v m else m

-- v, ok := x.(T), where x is the value of a key, if it has one
abbrev pub as_text : Option Value → Option String
as_text (some (text s)) = some s
as_text _ = none

abbrev pub as_int : Option Value → Option ℤ
as_int (some (int n)) = some n
as_int _ = none

abbrev pub as_map : Option Value → Option GoMap
as_map (some (obj m)) = some m
as_map _ = none

abbrev pub as_slice : Option Value → Option (List Value)
unfolding items
as_slice (some (arr vs)) = some (items vs)
as_slice _ = none

-- if v, ok := x.(T); ok { field = v }, over a field with its zero value
abbrev pub or_zero {ℓ} : {A : Type ℓ} → A → Option A → A
or_zero zero none = zero
or_zero zero (some a) = a

-- What json.Marshal and the server's decoder make of a value: a []string becomes a []interface{}.
unfoldable mutual
  pub wire : Value → Value
  wire (texts ss) = arr (slice (map text ss))
  wire (arr vs) = arr (wire_slice vs)
  wire (obj m) = obj (wire_map m)
  wire null = null
  wire (bool b) = bool b
  wire (int n) = int n
  wire (float s) = float s
  wire (text s) = text s

  pub wire_slice : Slice → Slice
  wire_slice no_more = no_more
  wire_slice (then_value v vs) = then_value (wire v) (wire_slice vs)

  pub wire_map : GoMap → GoMap
  wire_map no_keys = no_keys
  wire_map (pair k v m) = pair k (wire v) (wire_map m)

abbrev pub wire_option : Option Value → Option Value
wire_option none = none
wire_option (some v) = some (wire v)

pub get-wire_map : (key : String) (m : GoMap) → get key (wire_map m) ≡ wire_option (get key m)
unfolding get wire
get-wire_map key no_keys = refl
get-wire_map key (pair k v m) = ground (arith, get-wire_map key m)

pub wire_slice-slice : (vs : List Value) → wire_slice (slice vs) ≡ slice (map wire vs)
unfolding wire slice
wire_slice-slice [] = refl
wire_slice-slice (v ∷ vs) = ap (then_value (wire v)) (wire_slice-slice vs)
