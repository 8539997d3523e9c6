-- ===== src/Common/Json.antt =====
-- JSON values: what `JSON.parse` gives and what the database keeps in a `Json` column. A number is
-- kept in thousandths, so that rounding down can be told from the number itself. `date` is the text that
-- `toISOString` gives of a moment; nothing that is modelled reads such a text back.
use Prim.Native.Nat.{ℕ, ◌*◌}
use Prim.Native.String.{String}
use mathlib.Core.Path.{◌≡◌, refl}
use mathlib.Core.Bool.{Bool, false}
use mathlib.Core.Option.{Option, none, some}
use native.Mathlib.Omega.{arith}
use text.Mathlib.Text.{◌==◌ as str_eq}
use text.Mathlib.TextEquality.{eq_iff}
use agent_waypoint.Common.Tests.{if◌then◌else◌}
use agent_waypoint.Common.Text.{Text}

-- `negsuc n` is -(n + 1).
pub data ℤ : Type 0 where
  pos : ℕ → ℤ
  negsuc : ℕ → ℤ

mutual
  pub data Json : Type 0 where
    null : Json
    bool : Bool → Json
    num : ℤ → Json
    str : Text → Json
    date : ℕ → Json
    arr : Items → Json
    obj : Fields → Json

  pub data Items : Type 0 where
    nil : Items
    cons : Json → Items → Items

  pub data Fields : Type 0 where
    end : Fields
    field : String → Json → Fields → Fields

-- The whole number `n`.
abbrev pub whole : ℕ → Json
whole n = num (pos (n * 1000))

-- `record[key]`; `none` is `undefined`.
unfoldable pub get : String → Fields → Option Json
get k end = none
get k (field j v fs) = if str_eq j k then some v else get k fs

-- `record[key] = v`: a present key keeps its place, a new one comes last.
unfoldable pub put : String → Json → Fields → Fields
put k v end = field k v end
put k v (field j w fs) = if str_eq j k then field j v fs else field j w (put k v fs)

-- `delete record[key]`.
unfoldable pub remove : String → Fields → Fields
remove k end = end
remove k (field j v fs) = if str_eq j k then remove k fs else field j v (remove k fs)

-- `{ ...a, ...b }`.
unfoldable pub spread : Fields → Fields → Fields
unfolding put
spread a end = a
spread a (field j v fs) = spread (put j v a) fs

pub get-put :
    (j k : String) (v : Json) (fs : Fields)
    → get j (put k v fs) ≡ (if str_eq k j then some v else get j fs)
unfolding get put
get-put j k v end = refl
get-put j k v (field i w fs) = ground (arith, eq_iff i k, eq_iff i j, eq_iff k j, get-put j k v fs)

pub get-remove :
    (j k : String) (fs : Fields) → get j (remove k fs) ≡ (if str_eq k j then none else get j fs)
unfolding get remove
get-remove j k end = ground arith
get-remove j k (field i w fs) =
    ground (arith, eq_iff i k, eq_iff i j, eq_iff k j, get-remove j k fs)

-- `value && typeof value === 'object' && !Array.isArray(value) ? value : null`.
unfoldable pub as_record : Option Json → Option Fields
as_record (some (obj fs)) = some fs
as_record _ = none

-- `typeof value === 'string' ? value : null`.
unfoldable pub read_string : Option Json → Option Text
read_string (some (str s)) = some s
read_string _ = none

-- `typeof value === 'number' ? value : null`: the numbers of JSON are all finite.
unfoldable pub read_number : Option Json → Option ℤ
read_number (some (num n)) = some n
read_number _ = none

-- `value === true`.
unfoldable pub is_true : Option Json → Bool
is_true (some (bool b)) = b
is_true _ = false
