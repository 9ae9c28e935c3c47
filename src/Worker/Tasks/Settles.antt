-- ===== src/Worker/Tasks/Settles.antt =====
-- What one round of the worker does to the table of tasks.
use immich_go_server.Prelude.{
  ℤ, String, ◌≡◌, refl, sym, ap, ◌∙◌, inl, inr, ◌⊎◌, Bool, true, false, List, [], ◌∷◌, Option, none,
  some, map, if◌then◌else◌, ◌==◌, eq_iff, Assoc, lookup, contains, retain, Bool-cases, Result, ok,
  err, Post,
}
use immich_go_server.Float64.{Float64}
use immich_go_server.Config.{Config}
use immich_go_server.Model.{Task}
use immich_go_server.Store.{TaskRow, adjust, rows_of}
use immich_go_server.Store.Rows.{lookup-adjust}
use immich_go_server.Store.Tasks.{
  update_task_status, list_tasks_by, list_pending_tasks, with_status,
}
use immich_go_server.Store.Tasks.Table.{IsTable}
use immich_go_server.World.{World, Failure}
use immich_go_server.Worker.{DiskLocator}
use immich_go_server.Worker.Tasks.{execute, set_status, end_status, run_task, run_tasks, run_once}
use immich_go_server.Worker.Tasks.Frame.{WorldStill}
use immich_go_server.Worker.Tasks.Copies.{IsQuiet}
use immich_go_server.Worker.Tasks.Keeps.{execute-Keeps}

-- A row of a task that has been carried out is the row before with another status.
abbrev pub IsEnded : TaskRow → TaskRow → Type 0
IsEnded row row' = (row' ≡ with_status "DONE" row) ⊎ (row' ≡ with_status "FAILED" row)

abbrev pub IsAfter : Bool → TaskRow → TaskRow → Type 0
IsAfter true row row' = IsEnded row row'
IsAfter false row row' = row' ≡ row

abbrev task_of : TaskRow → Task
task_of row = row.task

abbrev is_queued : Task → Bool
is_queued t = t.status == "QUEUED"

abbrev queued_ids : List TaskRow → List String
queued_ids rows = map (λ t. t.task_id) (retain is_queued (map task_of rows))

abbrev is_turn : Option TaskRow → Bool
is_turn none = false
is_turn (some row) = is_queued row.task

-- ---- which tasks are queued ----

queued_key :
    (k : String) (rows : Assoc TaskRow)
    → IsTable rows
    → contains k (queued_ids (rows_of rows)) ≡ is_turn (lookup k rows)
unfolding contains lookup
queued_key k [] h = refl
queued_key k ((name, r) ∷ rows) (id, once, h) = elim (Bool-cases (name == k)) [
  | inl t ↦
      let rest : contains k (queued_ids (rows_of rows)) ≡ false =
        queued_key k rows h ∙ ap is_turn (rw ((eq_iff name k).0 t) at once) in
      elim (Bool-cases (is_queued r.task)) [
        | inl q ↦ rw q (rw (id, t) (sym q))
        | inr m ↦ rw (m, t) (rest ∙ sym m)
      ]
  | inr n ↦ elim (Bool-cases (is_queued r.task)) [
    | inl q ↦ rw q (rw (id, n) (queued_key k rows h))
    | inr m ↦ rw (m, n) (queued_key k rows h)
  ]
]

-- ---- one task ----

abbrev ended : String → String → Assoc TaskRow → Assoc TaskRow
ended id status rows = adjust id (with_status status) rows

lookup-ended_once :
    (k id status : String) (row : TaskRow) (rows : Assoc TaskRow)
    → lookup k rows ≡ some row
    → lookup k (ended id status rows)
      ≡ (if id == k then some (with_status status row) else some row)
lookup-ended_once k id status row rows h =
    lookup-adjust id k (with_status status) rows
    ∙ elim (Bool-cases (id == k)) [ inl t ↦ rw (t, (eq_iff id k).0 t, h) refl | inr n ↦ rw n h ]

-- The other tasks are as they were; this one has ended.
lookup-ended :
    (k id status : String) (row : TaskRow) (rows : Assoc TaskRow)
    → lookup k rows ≡ some row
    → lookup k (ended id status (ended id "RUNNING" rows))
      ≡ (if id == k then some (with_status status row) else some row)
lookup-ended k id status row rows h = elim (Bool-cases (id == k)) [
  | inl t ↦
      lookup-ended_once k id status (with_status "RUNNING" row) (ended id "RUNNING" rows)
        (lookup-ended_once k id "RUNNING" row rows h ∙ rw t refl)
      ∙ rw t refl
  | inr n ↦
      lookup-ended_once k id status row (ended id "RUNNING" rows)
        (lookup-ended_once k id "RUNNING" row rows h ∙ rw n refl)
]

after_one :
    (b : Bool) (status : String) (row row' : TaskRow)
    → (status ≡ "DONE") ⊎ (status ≡ "FAILED")
    → IsAfter b (with_status status row) row'
    → IsEnded row row'
after_one true status row row' e after = after
after_one false status row row' (inl e) after = inl (after ∙ ap (λ s. with_status s row) e)
after_one false status row row' (inr e) after = inr (after ∙ ap (λ s. with_status s row) e)

unkept :
    {F A : Type 0} (rows : Assoc TaskRow) (r : Result Failure A × World F)
    → Post (λ _. WorldStill rows) (λ _. WorldStill rows) r
    → WorldStill rows r.1
unkept rows (ok a, w) h = h
unkept rows (err e, w) h = h

module _ (fl : Float64) (loc : DiskLocator fl.F) (cfg : Config fl.F) (node_id task_id : String)
    (now : ℤ) where
  set_status-still :
      (id status : String) (rows : Assoc TaskRow) (w : World fl.F)
      → WorldStill rows w
      → WorldStill (ended id status rows) (set_status fl loc cfg node_id task_id now id status w)
  unfolding update_task_status
  set_status-still id status rows w h = rw (h.1) (ap (λ t. ended id status t) h.0, refl)

  abbrev outcome : Task → World fl.F → Result Failure Unit
  outcome t w =
      (execute fl loc cfg node_id task_id now t
        (set_status fl loc cfg node_id task_id now t.task_id "RUNNING" w)).0

  abbrev final_status : Task → World fl.F → String
  final_status t w = end_status fl loc cfg node_id task_id now (outcome t w)

  final_status_lem :
      (r : Result Failure Unit)
      → (end_status fl loc cfg node_id task_id now r ≡ "DONE")
        ⊎ (end_status fl loc cfg node_id task_id now r ≡ "FAILED")
  final_status_lem (ok _) = inl refl
  final_status_lem (err _) = inr refl

  module _ (quiet : IsQuiet loc) where
    kept :
        (rows : Assoc TaskRow) (t : Task) (w : World fl.F)
        → WorldStill rows w
        → WorldStill rows (execute fl loc cfg node_id task_id now t w).1
    kept rows t w h =
        unkept rows (execute fl loc cfg node_id task_id now t w)
          ((execute-Keeps fl loc cfg node_id task_id now rows quiet t).at w h)

    run_task-still :
        (rows : Assoc TaskRow) (t : Task) (w : World fl.F)
        → WorldStill rows w
        → WorldStill
            (ended t.task_id (final_status t w) (ended t.task_id "RUNNING" rows))
            (run_task fl loc cfg node_id task_id now t w)
    unfolding run_task
    run_task-still rows t w h =
        set_status-still t.task_id _ _ _
          (kept _ t _ (set_status-still t.task_id "RUNNING" rows w h))

    settled :
        (k : String) (ts : List Task) (rows : Assoc TaskRow) (row : TaskRow) (w : World fl.F)
        → WorldStill rows w
        → lookup k rows ≡ some row
        → (row' : TaskRow) × (lookup k
              (run_tasks fl loc cfg node_id task_id now ts w).host.store.task
            ≡ some row')
          × IsAfter (contains k (map (λ t. t.task_id) ts)) row row'
    unfolding run_tasks contains
    settled k [] rows row w h found = (row, ap (lookup k) h.0 ∙ found, refl)
    settled k (t ∷ ts) rows row w h found =
        let status = final_status t w in
        let now_row : lookup k (ended t.task_id status (ended t.task_id "RUNNING" rows))
            ≡ (if t.task_id == k then some (with_status status row) else some row) =
          lookup-ended k t.task_id status row rows found in
        elim (Bool-cases (t.task_id == k)) [
          | inl e ↦
              let (row', there, after) =
                settled k ts _ (with_status status row) _ (run_task-still rows t w h)
                  (now_row ∙ rw e refl) in
              (
                row',
                there,
                rw e (
                    after_one (contains k (map (λ t. t.task_id) ts)) status row row'
                      (final_status_lem (outcome t w)) after),
              )
          | inr n ↦ rw n (settled k ts _ row _ (run_task-still rows t w h) (now_row ∙ rw n refl))
        ]

module _ (fl : Float64) (loc : DiskLocator fl.F) (cfg : Config fl.F) (node_id task_id : String)
    (now : ℤ) where
  abbrev once : World fl.F → Result Failure Unit × World fl.F
  once = run_once fl loc cfg node_id task_id now

  all_queued :
      (w : World fl.F)
      → w.host.store.faults ≡ []
      → once w ≡ (
        ok tt,
        run_tasks fl loc cfg node_id task_id now
            (retain is_queued (map task_of (rows_of w.host.store.task)))
            w,
      )
  unfolding run_once list_pending_tasks list_tasks_by
  all_queued w works = rw works refl

  -- A round of the worker on a node whose database works, with a disk locator that leaves it so, returns no
  -- error if all calls return; and each row of the table of tasks is afterwards, if it was QUEUED, the same row with the status DONE
  -- or FAILED, whatever the files, the peers and the network do, and otherwise the row that it was.
  pub run_once_settles :
      (w : World fl.F) (k : String) (row : TaskRow)
      → IsQuiet loc
      → w.host.store.faults ≡ []
      → IsTable w.host.store.task
      → lookup k w.host.store.task ≡ some row
      → ((once w).0 ≡ ok tt)
        × ((row' : TaskRow) × (lookup k (once w).1.host.store.task ≡ some row')
            × IsAfter (row.task.status == "QUEUED") row row')
  run_once_settles w k row quiet works table found =
      let (row', there, after) =
        settled fl loc cfg node_id task_id now quiet k
          (retain is_queued (map task_of (rows_of w.host.store.task))) w.host.store.task row w
          (refl, works) found in
      let turn : contains k (queued_ids (rows_of w.host.store.task)) ≡ is_queued row.task =
        queued_key k w.host.store.task table ∙ ap is_turn found in
      (
        ap (λ r. r.0) (all_queued w works),
        (
          row',
          ap (λ r. lookup k r.1.host.store.task) (all_queued w works) ∙ there,
          rw turn at after,
        ),
      )
