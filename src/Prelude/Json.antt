-- ===== src/Prelude/Json.antt =====
-- JSON values: the payload columns and the request bodies.
use agenticops.Prelude.{
  ℕ, String, Bool, true, false, not, Option, none, some, List, [], ◌∷◌, str_eq, if◌then◌else◌, ◌==◌,
  or_else, int_of_text, strip,
}

mutual
  pub data Json : Type 0 where
    null : Json
    bool : Bool → Json
    num : ℕ → Json
    text : String → Json
    arr : Items → Json
    obj : Fields → Json

  pub data Items : Type 0 where
    nil : Items
    cons : Json → Items → Items

  pub data Fields : Type 0 where
    end : Fields
    field : String → Json → Fields → Fields

-- `d.get(key)` on an object's fields.
unfoldable pub get_field : String → Fields → Option Json
get_field k end = none
get_field k (field j v r) = if str_eq j k then some v else get_field k r

-- Python's truth of a value: `None`, `False`, 0, and what is empty are false.
unfoldable pub truth : Json → Bool
truth null = false
truth (bool b) = b
truth (num n) = not (n == 0)
truth (text s) = not (str_eq s "")
truth (arr nil) = false
truth (arr (cons v r)) = true
truth (obj end) = false
truth (obj (field k v r)) = true

-- `d.get(key)`, with `None` for a key that is not there.
unfoldable pub get_or_null : String → Fields → Json
unfolding get_field
get_or_null k fs = or_else (get_field k fs) null

-- `a or b`
unfoldable pub or_value : Json → Json → Json
unfolding truth
or_value a b = if truth a then a else b

unfoldable pub items : Items → List Json
items nil = []
items (cons v r) = v ∷ items r

-- Iterating over a dict gives its keys.
unfoldable pub keys : Fields → List Json
keys end = []
keys (field k v r) = text k ∷ keys r

-- `int(value)` where it does not raise; a negative number, a float and a signed text have no
-- counterpart here.
unfoldable pub int_of : Json → Option ℕ
int_of null = none
int_of (bool true) = some 1
int_of (bool false) = some 0
int_of (num n) = some n
int_of (text s) = int_of_text (strip s)
int_of (arr _) = none
int_of (obj _) = none

-- `dict[key] = value` keeps the place of a key that is there.
unfoldable pub put_field : String → Json → Fields → Fields
put_field k v end = field k v end
put_field k v (field j w r) = if str_eq j k then field j v r else field j w (put_field k v r)
