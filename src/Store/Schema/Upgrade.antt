-- ===== src/Store/Schema/Upgrade.antt =====
-- Opening a database that has been upgraded already changes nothing.
use immich_go_server.Prelude.{
  ℤ, pos, negsuc, String, ◌≡◌, refl, inl, inr, true, List, [], ◌∷◌, ◌++◌, some, arith, Assoc,
  lookup, lookup-insert_self, contains, IsInt64, Option-cases, Bool-cases, eq_refl,
}
use immich_go_server.Store.Schema.{ensure_column, epoch_seconds}

-- A time that has been converted from nanoseconds is not converted again, nor is one in seconds changed:
-- converting twice is converting once.
pub epoch_seconds_again : (t : ℤ) → IsInt64 t → epoch_seconds (epoch_seconds t) ≡ epoch_seconds t
epoch_seconds_again (pos n) (small, _) = ground arith
epoch_seconds_again (negsuc n) fits = refl

contains-end : (k : String) (xs : List String) → contains k (xs ++ k ∷ []) ≡ true
unfolding contains
contains-end k [] = rw eq_refl refl
contains-end k (x ∷ xs) = ground (arith, contains-end k xs)

has_column :
    (table column : String) (schema' : Assoc (List String)) (columns : List String)
    → lookup table schema' ≡ some columns
    → contains column columns ≡ true
    → ensure_column table column schema' ≡ some schema'
unfolding ensure_column
has_column table column schema' columns found has = rw (found, ensure_column, has) refl

ensured :
    (table column : String) (schema schema' : Assoc (List String))
    → ensure_column table column schema ≡ some schema'
    → (columns : List String) × (lookup table schema' ≡ some columns)
      × (contains column columns ≡ true)
unfolding ensure_column
ensured table column schema schema' h = elim (Option-cases (lookup table schema)) [
  | inl missing ↦ absurd (ground arith)
  | inr (columns, found) ↦ elim (Bool-cases (contains column columns)) [
    | inl has ↦ (columns, ground arith, has)
    | inr new ↦ (
      columns ++ column ∷ [],
      ground (arith, lookup-insert_self table (columns ++ column ∷ []) schema),
      contains-end column columns,
    )
  ]
]

-- Once a column has been ensured, ensuring it again succeeds and changes nothing.
pub ensure_column_again :
    (table column : String) (schema schema' : Assoc (List String))
    → ensure_column table column schema ≡ some schema'
    → ensure_column table column schema' ≡ some schema'
ensure_column_again table column schema schema' h =
    let (columns, found, has) = ensured table column schema schema' h in
    has_column table column schema' columns found has
