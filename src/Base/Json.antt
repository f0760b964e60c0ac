-- ===== src/Base/Json.antt =====
-- Values of serde_json: the constructors of `serde_json::Value` and the accessors that the services
-- call. A number that no unsigned integer holds is kept as its text.
use ctfdpp.Base.Tests.{if◌then◌else◌}
use Prim.Native.Nat.{ℕ}
use Prim.Native.String.{String}
use mathlib.Core.Path.{◌≡◌, refl}
use mathlib.Core.Bool.{Bool, true, false}
use mathlib.Core.Option.{Option, none, some}
use native.Mathlib.Omega.{arith}
use text.Mathlib.Text.{◌==◌ as str_eq}
use text.Mathlib.TextEquality.{eq_iff}
use text.Mathlib.TextPositions.{eq_refl}

mutual
  pub data Value : Type 0 where
    null : Value
    boolean : Bool → Value
    number : ℕ → Value
    other_number : String → Value
    string : String → Value
    array : Items → Value
    object : Fields → Value

  pub data Items : Type 0 where
    nil : Items
    cons : Value → Items → Items

  pub data Fields : Type 0 where
    end : Fields
    field : String → Value → Fields → Fields

-- `Map::get`, `Map::contains_key`, `Map::insert`, `Map::remove`
unfoldable pub get_field : String → Fields → Option Value
get_field k end = none
get_field k (field j v fs) = if str_eq j k then some v else get_field k fs

unfoldable pub contains_key : String → Fields → Bool
contains_key k end = false
contains_key k (field j v fs) = if str_eq j k then true else contains_key k fs

unfoldable pub insert_field : String → Value → Fields → Fields
insert_field k v end = field k v end
insert_field k v (field j w fs) =
    if str_eq j k then field j v fs else field j w (insert_field k v fs)

unfoldable pub remove_field : String → Fields → Fields
remove_field k end = end
remove_field k (field j v fs) =
    let rest = remove_field k fs in if str_eq j k then rest else field j v rest

-- The member that `Map::get_mut` yields, changed in place.
unfoldable pub modify_field : String → (Value → Value) → Fields → Fields
modify_field k f end = end
modify_field k f (field j v fs) =
    if str_eq j k then field j (f v) fs else field j v (modify_field k f fs)

-- `Value::get`, `Value::as_str`, `Value::as_u64`; `Value::pointer` is a chain of `get`.
unfoldable pub get_member : String → Value → Option Value
get_member k (object fs) = get_field k fs
get_member k v = none

abbrev pub and_then {ℓ κ} : {A : Type ℓ} {B : Type κ} → Option A → (A → Option B) → Option B
and_then none f = none
and_then (some a) f = f a

abbrev pub as_str : Value → Option String
as_str (string s) = some s
as_str v = none

abbrev pub as_u64 : Value → Option ℕ
as_u64 (number n) = some n
as_u64 v = none

pub get_field-insert_field :
    (j k : String) (v : Value) (fs : Fields)
    → get_field j (insert_field k v fs) ≡ (if str_eq k j then some v else get_field j fs)
unfolding get_field insert_field
get_field-insert_field j k v end = refl
get_field-insert_field j k v (field i w fs) =
    ground (arith, eq_iff i k, eq_iff i j, eq_iff k j, get_field-insert_field j k v fs)

pub get_field-remove_field :
    (j k : String) (fs : Fields)
    → get_field j (remove_field k fs) ≡ (if str_eq k j then none else get_field j fs)
unfolding get_field remove_field
get_field-remove_field j k end = ground arith
get_field-remove_field j k (field i w fs) =
    ground (arith, eq_iff i k, eq_iff i j, eq_iff k j, get_field-remove_field j k fs)

pub contains_key-insert_field :
    (k : String) (v : Value) (fs : Fields) → contains_key k (insert_field k v fs) ≡ true
unfolding contains_key insert_field
contains_key-insert_field k v end = rw (eq_refl k)
contains_key-insert_field k v (field i w fs) = ground (arith, contains_key-insert_field k v fs)

-- Writing a key twice keeps the last value.
pub insert_field-insert_field :
    (k : String) (v w : Value) (fs : Fields)
    → insert_field k v (insert_field k w fs) ≡ insert_field k v fs
unfolding insert_field
insert_field-insert_field k v w end = rw (eq_refl k)
insert_field-insert_field k v w (field i u fs) = ground (arith, insert_field-insert_field k v w fs)

pub modify_field-modify_field :
    (k : String) (f g h : Value → Value)
    → ((v : Value) → f (g v) ≡ h v)
    → (fs : Fields) → modify_field k f (modify_field k g fs) ≡ modify_field k h fs
unfolding modify_field
modify_field-modify_field k f g h e end = refl
modify_field-modify_field k f g h e (field i v fs) =
    ground (arith, e v, modify_field-modify_field k f g h e fs)

pub get_field-modify_field :
    (k : String) (f : Value → Value) (fs : Fields)
    → get_field k (modify_field k f fs) ≡ and_then (get_field k fs) (λ v. some (f v))
unfolding get_field modify_field
get_field-modify_field k f end = refl
get_field-modify_field k f (field i v fs) = ground (arith, get_field-modify_field k f fs)
