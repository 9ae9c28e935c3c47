-- ===== src/Store/Tasks/Table.antt =====
-- The table of tasks has one row for an id.
use mathlib.Core.Option.{some-injective}
use immich_go_server.Prelude.{
  ℤ, String, ◌≡◌, refl, sym, subst, ap, ◌∙◌, inl, inr, [], ◌∷◌, none, some, arith, ◌==◌, eq_iff,
  Assoc, lookup, insert, lookup-insert, Bool-cases, Option-cases,
}
use immich_go_server.Model.{Task}
use immich_go_server.Store.{Store, TaskRow, faulty, upsert}
use immich_go_server.Store.Tasks.{submit_task}
use immich_go_server.Store.Tasks.Lifecycle.{queued, submit_task_table}

-- Every row stands once in the table, by the id of its task, as the primary key has it.
abbrev pub IsTable : Assoc TaskRow → Type 0
IsTable [] = Unit
IsTable ((k, row) ∷ rows) = (row.task.task_id ≡ k) × (lookup k rows ≡ none) × IsTable rows

insert-IsTable :
    (k : String) (row : TaskRow) (rows : Assoc TaskRow)
    → row.task.task_id ≡ k
    → IsTable rows
    → IsTable (insert k row rows)
unfolding lookup insert
insert-IsTable k row [] named h = (named, refl, tt)
insert-IsTable k row ((name, old) ∷ rows) named (id, once, h) = elim (Bool-cases (name == k)) [
  | inl t ↦ rw t (named, rw ((eq_iff name k).0 t) at once, h)
  | inr n ↦ rw n (
    id,
    lookup-insert k name row rows ∙ ground (arith, eq_iff k name, eq_iff name k),
    insert-IsTable k row rows named h,
  )
]

named_row :
    (k : String) (row : TaskRow) (rows : Assoc TaskRow)
    → lookup k rows ≡ some row
    → IsTable rows
    → row.task.task_id ≡ k
unfolding lookup
named_row k row [] found h = cc
named_row k row ((name, r) ∷ rows) found (id, once, h) = elim (Bool-cases (name == k)) [
  | inl t ↦
      ap (λ x. x.task.task_id) (sym (some-injective r row (rw t at found)))
      ∙ id
      ∙ (eq_iff name k).0 t
  | inr n ↦ named_row k row rows (rw n at found) h
]

upsert-IsTable :
    (k : String) (row : TaskRow) (rows : Assoc TaskRow)
    → row.task.task_id ≡ k
    → IsTable rows
    → IsTable (upsert k row (λ old. old) rows)
upsert-IsTable k row rows named h = elim (Option-cases (lookup k rows)) [
  | inl n ↦ rw n (insert-IsTable k row rows named h)
  | inr (old, e) ↦ rw e (insert-IsTable k old rows (named_row k old rows e h) h)
]

-- Submitting a task keeps one row for an id, also if the engine fails.
pub submit_task-IsTable :
    {F : Type 0} (now : ℤ) (task : Task) (s : Store F)
    → IsTable s.task
    → IsTable (submit_task now task s).1.task
submit_task-IsTable now task s h =
    subst IsTable (sym (submit_task_table now task s)) (elim (Bool-cases (faulty s.faults)) [
      | inl t ↦ rw t h
      | inr n ↦ rw n (upsert-IsTable task.task_id (queued now task) s.task refl h)
    ])
