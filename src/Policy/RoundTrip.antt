-- ===== src/Policy/RoundTrip.antt =====
-- Proofs about `set_autonomy_level` and `get_autonomy_level` of `AutomationSettingsService`.
use agenticops.Prelude.{
  ℕ, ◌≤◌, String, ◌≡◌, refl, inl, inr, Bool, true, false, some, arith, leb, str_eq, eq_refl, ap,
  eq_iff, ◌∙◌, Option-cases, Bool-cases,
}
use agenticops.Prelude.Exec.{ok}
use agenticops.Prelude.Json.{Json, Fields, text, num, end, field, get_field, put_field, int_of}
use agenticops.Policy.Settings.{
  SettingsDb, derive_level, stored_level, mode_of_level, get_or_create_row, row_or_new,
  initial_value, get_autonomy_level, get_automation_mode, stored, set_autonomy_level,
}

get-put_field : (k : String) (v : Json) (fs : Fields) → get_field k (put_field k v fs) ≡ some v
unfolding get_field put_field
get-put_field k v end = ground (arith, eq_refl k)
get-put_field k v (field j w fs) = ground (arith, get-put_field k v fs)

get-put_other :
    (k j : String) (v : Json) (fs : Fields)
    → str_eq j k ≡ false
    → str_eq k j ≡ false
    → get_field k (put_field j v fs) ≡ get_field k fs
unfolding get_field put_field
get-put_other k j v end h h' = ground arith
get-put_other k j v (field i w fs) h h' = elim (Bool-cases (str_eq i j)) [
  | inl hit ↦
      let same : i ≡ j = (eq_iff i j).0 hit in
      let miss : str_eq i k ≡ false = rw same h in ground (arith, hit, miss)
  | inr miss ↦ ground (arith, miss, get-put_other k j v fs h h')
]

level-stored :
    (level : ℕ) (value : Fields)
    → get_field "autonomy_level" (stored level value) ≡ some (num level)
unfolding stored
level-stored level value =
    get-put_other "autonomy_level" "mode" (text (mode_of_level level))
      (put_field "autonomy_level" (num level) value) refl refl
    ∙ get-put_field "autonomy_level" (num level) value

derive-stored :
    (level : ℕ) (value : Fields) (observe_only : Bool)
    → level ≤ 5
    → derive_level (stored level value) observe_only ≡ level
unfolding derive_level stored_level int_of
derive-stored level value observe_only h = ground (arith, level-stored level value)

-- A setting whose row is there is read as the row says.
level_of_row :
    (observe_only : Bool) (value : Fields) (db : SettingsDb)
    → db.row ≡ some value
    → (get_autonomy_level observe_only db).0 ≡ ok (derive_level value observe_only)
unfolding get_autonomy_level get_or_create_row row_or_new
level_of_row observe_only value db h = rw h refl

set_row :
    (observe_only : Bool) (level : ℕ) (db : SettingsDb)
    → level ≤ 5
    → (value : Fields) × ((set_autonomy_level observe_only level db).1.row
        ≡ some (stored level value))
      × ((set_autonomy_level observe_only level db).0
          ≡ ok (record {
            mode = mode_of_level (derive_level (stored level value) observe_only);
            autonomy_level = derive_level (stored level value) observe_only;
            is_observe_only = leb (derive_level (stored level value) observe_only) 1;
          }))
unfolding set_autonomy_level get_automation_mode get_autonomy_level get_or_create_row row_or_new
set_row observe_only level db h =
    let small : leb level 5 ≡ true = ground arith in
    elim (Option-cases db.row) [
      | inl empty ↦ (initial_value, rw small (rw empty refl), rw small (rw empty refl))
      | inr (value, there) ↦ (value, rw small (rw there refl), rw small (rw there refl))
    ]

-- An autonomy level up to 5 that is set is the level that is read afterwards, whatever was
-- stored before and whatever the default; and the answer is that level with its mode.
pub set-get_level :
    (observe_only default_later : Bool) (level : ℕ) (db : SettingsDb)
    → level ≤ 5
    → ((get_autonomy_level default_later (set_autonomy_level observe_only level db).1).0 ≡ ok level)
      × ((set_autonomy_level observe_only level db).0
          ≡ ok (record {
            mode = mode_of_level level;
            autonomy_level = level;
            is_observe_only = leb level 1;
          }))
set-get_level observe_only default_later level db h =
    let (value, row, result) = set_row observe_only level db h in
    let same = derive-stored level value default_later h in
    (
      level_of_row default_later (stored level value) (set_autonomy_level observe_only level db).1
            row
          ∙ ap ok same,
      rw (derive-stored level value observe_only h) at result,
    )
