-- ===== src/Prelude/Text.antt =====
-- Texts: comparison, f-strings and decimal printing.
use Prim.Native.Nat.{ℕ, zero, suc, ◌+◌, ◌-◌, ◌*◌, ◌/◌, ◌%◌}
use Prim.Native.Char.{Char, code}
use Prim.Native.String
use Prim.Native.String.{String}
use mathlib.Core.Bool.{Bool, true, false, ◌&&◌, ◌||◌}
use mathlib.Core.Option.{Option, none, some}
use mathlib.Core.List.{List, [], ◌∷◌}
use text.Mathlib.Text.{◌==◌, find?, starts_with}
pub use text.Mathlib.TextEquality.{eq_iff}
pub use text.Mathlib.TextPositions.{eq_refl}
use mathlib.Core.Path.{◌≡◌, refl}
use agenticops.Prelude.Tests.{if◌then◌else◌, ltb, leb, is_some, ◌==◌ as eqb}

abbrev pub str_eq : String → String → Bool
str_eq a b = a == b

-- An f-string, by its pieces.
unfoldable pub format : List String → String
format [] = ""
format (s ∷ r) = String.◌++◌ s (format r)

abbrev pub str_mem : String → List String → Bool
str_mem s [] = false
str_mem s (t ∷ ts) = str_eq s t || str_mem s ts

-- Python's truth of a text that may be `None`.
abbrev pub truthy : Option String → Bool
truthy none = false
truthy (some s) = if str_eq s "" then false else true

-- `s or d` on texts
abbrev pub text_or : Option String → String → String
text_or none d = d
text_or (some s) d = if str_eq s "" then d else s

-- The decimal digit of a number below ten.
digit : ℕ → String
digit zero = "0"
digit (suc zero) = "1"
digit (suc (suc zero)) = "2"
digit (suc (suc (suc zero))) = "3"
digit (suc (suc (suc (suc zero)))) = "4"
digit (suc (suc (suc (suc (suc zero))))) = "5"
digit (suc (suc (suc (suc (suc (suc zero)))))) = "6"
digit (suc (suc (suc (suc (suc (suc (suc zero))))))) = "7"
digit (suc (suc (suc (suc (suc (suc (suc (suc zero)))))))) = "8"
digit _ = "9"

decimal : ℕ → ℕ → String
unfolding digit
decimal zero n = digit (n % 10)
decimal (suc fuel) n =
    let high = decimal fuel (n / 10) in
    if ltb n 10 then digit n else String.◌++◌ high (digit (n % 10))

-- `str(n)`: a number has fewer digits than its value plus one, which is the fuel.
unfoldable pub str : ℕ → String
unfolding decimal
str n = decimal n n

-- `s[:n]`
unfoldable pub take_text : ℕ → String → String
take_text zero s = ""
take_text (suc n) String.[] = ""
take_text (suc n) (String.◌∷◌ c s) = String.◌∷◌ c (take_text n s)

drop_text : ℕ → String → String
drop_text zero s = s
drop_text (suc n) String.[] = ""
drop_text (suc n) (String.◌∷◌ c s) = drop_text n s

-- `s[-n:]`
unfoldable pub last_text : ℕ → String → String
unfolding drop_text
last_text n s = drop_text (String.count s - n) s

-- `s.lower()` on the letters A to Z; other characters stay.
lower_char : Char → Char
lower_char c =
    if leb b'A' (code c) && leb (code c) b'Z'
    then String.char_at "abcdefghijklmnopqrstuvwxyz" (code c - b'A')
    else c

unfoldable pub lower : String → String
unfolding lower_char
lower String.[] = ""
lower (String.◌∷◌ c s) = String.◌∷◌ (lower_char c) (lower s)

is_space : Char → Bool
is_space c = eqb (code c) 32 || (leb 9 (code c) && leb (code c) 13)

strip_left : String → String
unfolding is_space
strip_left String.[] = ""
strip_left (String.◌∷◌ c s) = let rest = strip_left s in if is_space c then rest else String.◌∷◌ c s

strip_right : String → String
unfolding is_space
strip_right String.[] = ""
strip_right (String.◌∷◌ c s) =
    let rest = strip_right s in if is_space c && rest == "" then "" else String.◌∷◌ c rest

-- `s.strip()` of the ASCII blanks
unfoldable pub strip : String → String
unfolding strip_left strip_right
strip s = strip_right (strip_left s)

-- `needle in hay`
unfoldable pub contains_text : String → String → Bool
contains_text needle hay = is_some (find? hay needle)

unfoldable pub prefixed : String → List String → Bool
prefixed s [] = false
prefixed s (p ∷ ps) = starts_with s p || prefixed s ps

-- `int(s)` of plain decimal digits
digits_of : ℕ → String → Option ℕ
digits_of n String.[] = some n
digits_of n (String.◌∷◌ c s) =
    let rest = digits_of (n * 10 + (code c - b'0')) s in
    if leb b'0' (code c) && leb (code c) b'9' then rest else none

unfoldable pub int_of_text : String → Option ℕ
unfolding digits_of
int_of_text s = if s == "" then none else digits_of 0 s

text_tests :
    (str 4096 ≡ "4096") × (lower (strip " Show RUN ") ≡ "show run") × (int_of_text "0042" ≡ some 42)
unfolding str lower strip int_of_text
text_tests = (refl, refl, refl)
