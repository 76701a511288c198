-- ===== src/Ingestion/Cursor.antt =====
-- The order of cursors, pairs of a time and a document's identifier, as Python compares such tuples.
use Prim.Native.Char.{code}
use agenticops.Prelude.{
  ℕ, String, ◌≡◌, refl, Bool, true, false, ◌&&◌, ◌||◌, arith, ltb, ◌==◌, str_eq, eq_iff, ==_refl,
}

-- `a <= b` on texts, by their code points
unfoldable pub text_le : String → String → Bool
text_le String.[] t = true
text_le (String.◌∷◌ c s) String.[] = false
text_le (String.◌∷◌ c s) (String.◌∷◌ d t) =
    let rest = text_le s t in ltb (code c) (code d) || ((code c == code d) && rest)

pub text_le_trans : (a b c : String) → text_le a b ≡ true → text_le b c ≡ true → text_le a c ≡ true
unfolding text_le
text_le_trans String.[] b c h k = refl
text_le_trans (String.◌∷◌ x a) String.[] c h k = absurd (ground (arith, h))
text_le_trans (String.◌∷◌ x a) (String.◌∷◌ y b) String.[] h k = absurd (ground (arith, k))
text_le_trans (String.◌∷◌ x a) (String.◌∷◌ y b) (String.◌∷◌ z c) h k =
    ground (arith, text_le_trans a b c)

pub text_le_total : (a b : String) → text_le a b ≡ false → text_le b a ≡ true
unfolding text_le
text_le_total String.[] b h = absurd (ground (arith, h))
text_le_total (String.◌∷◌ x a) String.[] h = refl
text_le_total (String.◌∷◌ x a) (String.◌∷◌ y b) h = ground (arith, text_le_total a b)

pub record Cursor : Type 0 where
  pub timestamp : ℕ
  pub document_id : String

-- `a <= b` on tuples
unfoldable pub cursor_le : Cursor → Cursor → Bool
unfolding text_le
cursor_le a b =
    ltb a.timestamp b.timestamp
    || ((a.timestamp == b.timestamp) && text_le a.document_id b.document_id)

-- What is strictly after something is strictly after all that this is not before.
pub cursor_after_trans :
    (a b c : Cursor) → cursor_le b a ≡ false → cursor_le c b ≡ false → cursor_le c a ≡ false
unfolding cursor_le
cursor_after_trans a b c h k = ground (
  arith,
  text_le_trans c.document_id a.document_id b.document_id,
  text_le_total b.document_id a.document_id,
  text_le_total c.document_id b.document_id,
)

text_le_refl : (a : String) → text_le a a ≡ true
unfolding text_le
text_le_refl String.[] = refl
text_le_refl (String.◌∷◌ c a) = ground (arith, text_le_refl a, ==_refl (code c))

-- `a == b` on tuples
unfoldable pub cursor_eq : Cursor → Cursor → Bool
cursor_eq a b = (a.timestamp == b.timestamp) && str_eq a.document_id b.document_id

pub cursor_eq_le : (a b : Cursor) → cursor_eq a b ≡ true → cursor_le a b ≡ true
unfolding cursor_eq cursor_le
cursor_eq_le a b h =
    ground (arith, h, eq_iff a.document_id b.document_id, text_le_refl a.document_id)

pub cursor_le_refl : (a : Cursor) → cursor_le a a ≡ true
unfolding cursor_le
cursor_le_refl a = ground (arith, text_le_refl a.document_id, ==_refl a.timestamp)

pub cursor_le_total : (a b : Cursor) → cursor_le a b ≡ false → cursor_le b a ≡ true
unfolding cursor_le
cursor_le_total a b h = ground (arith, text_le_total a.document_id b.document_id)
