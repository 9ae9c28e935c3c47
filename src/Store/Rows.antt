-- ===== src/Store/Rows.antt =====
-- The statements of internal/store/store.go on one table: what each row is afterwards.
use immich_go_server.Prelude.{
  String, ◌≡◌, refl, ap, not, retain, inl, inr, Bool, [], ◌∷◌, Option, none, some, arith,
  if◌then◌else◌, Assoc, lookup, lookup-insert, Option-cases, Bool-cases, ◌==◌, eq_iff,
}
use immich_go_server.Store.{upsert, adjust, rows_of, delete_where}

module _ {V : Type 0} where
  abbrev pub updated : V → (V → V) → Option V → V
  updated new onto none = new
  updated new onto (some old) = onto old

  pub lookup-upsert :
      (k j : String) (new : V) (onto : V → V) (rows : Assoc V)
      → lookup j (upsert k new onto rows)
        ≡ (if k == j then some (updated new onto (lookup k rows)) else lookup j rows)
  lookup-upsert k j new onto rows = elim (Option-cases (lookup k rows)) [
    | inl n ↦ rw n (lookup-insert k j new rows)
    | inr (old, e) ↦ rw e (lookup-insert k j (onto old) rows)
  ]

  abbrev pub changed : (V → V) → Option V → Option V
  changed f none = none
  changed f (some v) = some (f v)

  pub lookup-adjust :
      (k j : String) (f : V → V) (rows : Assoc V)
      → lookup j (adjust k f rows) ≡ (if k == j then changed f (lookup k rows) else lookup j rows)
  lookup-adjust k j f rows = elim (Option-cases (lookup k rows)) [
    | inl n ↦ rw n (ground (arith, eq_iff k j))
    | inr (old, e) ↦ rw e (lookup-insert k j (f old) rows)
  ]

  -- The rows that a `DELETE` leaves do not meet its condition.
  pub rows_of-delete_where :
      (p : V → Bool) (rows : Assoc V)
      → rows_of (delete_where p rows) ≡ retain (λ v. not (p v)) (rows_of rows)
  rows_of-delete_where p [] = refl
  rows_of-delete_where p ((k, v) ∷ rows) = elim (Bool-cases (p v)) [
    | inl t ↦ rw t (rows_of-delete_where p rows)
    | inr f ↦ rw f (ap (λ r. v ∷ r) (rows_of-delete_where p rows))
  ]
