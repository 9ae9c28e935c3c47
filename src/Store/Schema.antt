-- ===== src/Store/Schema.antt =====
-- internal/store/store.go: what opening an old database does: the columns that were added later, and
-- the evaluation times that used to be nanoseconds.
pub mod Upgrade
pub mod Tests
use immich_go_server.Prelude.{
  ℕ, ◌/◌, ◌^◌, ◌≡◌, refl, ℤ, pos, negsuc, ltb, String, Bool, true, false, List, [], ◌∷◌, ◌++◌, map,
  Option, none, some, if◌then◌else◌, arith, Assoc, lookup, insert, contains,
}
use immich_go_server.Model.{Directory}

-- The columns of the tables by name. `none`: there is no such table, and the statements fail.
unfoldable pub ensure_column : String → String → Assoc (List String) → Option (Assoc (List String))
ensure_column table column schema = elim (lookup table schema) [
  | none ↦ none
  | some columns ↦
      if contains column columns
      then some schema
      else some (insert table (columns ++ column ∷ []) schema)
]

abbrev pub later_columns : List (String × String)
later_columns =
    ("directory", "last_eval_at") ∷ ("disk", "blob_root") ∷ ("asset", "original_path") ∷ []

unfoldable pub ensure_columns :
    List (String × String) → Assoc (List String) → Option (Assoc (List String))
ensure_columns [] schema = some schema
ensure_columns ((table, column) ∷ cols) schema = elim (ensure_column table column schema) [
  | none ↦ none
  | some schema' ↦ ensure_columns cols schema'
]

-- `UPDATE directory SET last_eval_at = last_eval_at / 1000000000 WHERE last_eval_at > 1000000000000000`
abbrev pub epoch_seconds : ℤ → ℤ
epoch_seconds (pos n) = if ltb (10 ^ 15) n then pos (n / 10 ^ 9) else pos n
epoch_seconds (negsuc n) = negsuc n

abbrev pub migrate_rows : {F : Type 0} → Assoc (Directory F) → Assoc (Directory F)
migrate_rows [] = []
migrate_rows ((k, d) ∷ rows) =
    (k, record d { last_eval_at = epoch_seconds d.last_eval_at }) ∷ migrate_rows rows
