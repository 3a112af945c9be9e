-- ===== src/Prelude/Json.antt =====
-- JSON columns and dicts of JSON values, with the operations that the code makes on them.
use Prim.Native.String.{String}
use mathlib.Core.Path.{◌≡◌, refl}
use mathlib.Core.Bool.{Bool, true, false, not}
use mathlib.Core.Option.{Option, none, some}
use mathlib.Core.List.{List, [], ◌∷◌}
use text.Mathlib.Text.{◌==◌ as str_eq}
use queryops_ai.Prelude.Tests.{if◌then◌else◌, ◌==◌}
use queryops_ai.Prelude.Int.{ℤ, pos, negsuc}

mutual
  pub data Json : Type 0 where
    null : Json
    bool : Bool → Json
    num : ℤ → Json
    str : String → Json
    arr : Items → Json
    obj : Fields → Json

  pub data Items : Type 0 where
    nil : Items
    cons : Json → Items → Items

  pub data Fields : Type 0 where
    end : Fields
    field : String → Json → Fields → Fields

unfoldable pub to_list : Items → List Json
to_list nil = []
to_list (cons x xs) = x ∷ to_list xs

unfoldable pub of_list : List Json → Items
of_list [] = nil
of_list (x ∷ xs) = cons x (of_list xs)

pub to_list-of_list : (xs : List Json) → to_list (of_list xs) ≡ xs
unfolding to_list of_list
to_list-of_list [] = refl
to_list-of_list (x ∷ xs) = λ i. x ∷ to_list-of_list xs i

-- `d.get(key)`, with `null` for None
unfoldable pub get : Fields → String → Json
get end k = null
get (field j v fs) k = let rest = get fs k in if str_eq j k then v else rest

-- `key in d`
unfoldable pub has : Fields → String → Bool
has end k = false
has (field j v fs) k = let rest = has fs k in if str_eq j k then true else rest

-- `d[key] = v`
unfoldable pub set : Fields → String → Json → Fields
set end k v = field k v end
set (field j w fs) k v =
    let rest = set fs k v in if str_eq j k then field j v fs else field j w rest

-- `bool(v)`
unfoldable pub truthy : Json → Bool
truthy null = false
truthy (bool b) = b
truthy (num (pos n)) = not (n == 0)
truthy (num (negsuc n)) = true
truthy (str s) = not (str_eq s "")
truthy (arr nil) = false
truthy (arr (cons x xs)) = true
truthy (obj end) = false
truthy (obj (field k v fs)) = true

-- `v is True`
abbrev pub is_true : Json → Bool
is_true (bool b) = b
is_true _ = false

characters : String → List Json
characters String.[] = []
characters (String.◌∷◌ c s) = str (String.◌∷◌ c String.[]) ∷ characters s

keys : Fields → List Json
keys end = []
keys (field k v fs) = str k ∷ keys fs

-- `for x in v`, which raises a TypeError (`none`) where `v` cannot be iterated
unfoldable pub iterate : Json → Option (List Json)
unfolding to_list characters keys
iterate null = none
iterate (bool b) = none
iterate (num n) = none
iterate (str s) = some (characters s)
iterate (arr xs) = some (to_list xs)
iterate (obj fs) = some (keys fs)
