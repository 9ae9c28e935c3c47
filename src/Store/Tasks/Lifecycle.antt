-- ===== src/Store/Tasks/Lifecycle.antt =====
-- The life of a task in the table.
use immich_go_server.Prelude.{
  ap, arith, eq_iff, if◌then◌else◌, ℤ, String, ◌≡◌, refl, sym, ap, ◌∙◌, none, some, if◌then◌else◌,
  ◌==◌, eq_refl, lookup,
}
use immich_go_server.Model.{Task}
use immich_go_server.Store.{faulty, upsert, Store, TaskRow, working}
use immich_go_server.Store.Rows.{lookup-upsert, lookup-adjust, updated}
use immich_go_server.Store.Tasks.{submit_task, update_task_status, with_status}

abbrev pub queued : ℤ → Task → TaskRow
queued now task = record { task = record task { status = "QUEUED" }; created_at = now }

module _ {F : Type 0} where
  -- While the engine works, submitting a task whose id is new queues it; one whose id is known, in whatever
  -- state that task is, changes no row.
  pub submit_task_lem :
      (now : ℤ) (task : Task) (s : Store F) (k : String)
      → lookup k (submit_task now task (working s)).1.task ≡ (
          if task.task_id == k
          then some (updated (queued now task) (λ old. old) (lookup task.task_id s.task))
          else lookup k s.task)
  unfolding submit_task
  submit_task_lem now task s k = lookup-upsert task.task_id k (queued now task) (λ old. old) s.task

  submit-known :
      (now : ℤ) (task : Task) (s : Store F) (row : TaskRow)
      → lookup task.task_id s.task ≡ some row
      → lookup task.task_id (submit_task now task (working s)).1.task ≡ some row
  submit-known now task s row found =
      submit_task_lem now task s task.task_id ∙ rw (eq_refl, found) refl

  submit-new :
      (now : ℤ) (task : Task) (s : Store F)
      → lookup task.task_id s.task ≡ none
      → lookup task.task_id (submit_task now task (working s)).1.task ≡ some (queued now task)
  submit-new now task s missing =
      submit_task_lem now task s task.task_id ∙ rw (eq_refl, missing) refl

  update-known :
      (id status : String) (s : Store F) (row : TaskRow)
      → lookup id s.task ≡ some row
      → lookup id (update_task_status id status (working s)).1.task ≡ some (with_status status row)
  unfolding update_task_status
  update-known id status s row found =
      lookup-adjust id id (with_status status) s.task ∙ rw (eq_refl, found) refl

  -- A task that was queued and then got another status keeps that status, and its disks, when a task of
  -- the same id is submitted again: the new task is dropped.
  pub submit_task_again :
      (now next : ℤ) (task again : Task) (status : String) (s : Store F)
      → lookup task.task_id s.task ≡ none
      → task.task_id ≡ again.task_id
      → lookup again.task_id
          (submit_task next again (
            working
              (update_task_status task.task_id status
                (working (submit_task now task (working s)).1)).1)).1.task
        ≡ some (with_status status (queued now task))
  submit_task_again now next task again status s missing same =
      let queue = (submit_task now task (working s)).1 in
      let done = (update_task_status task.task_id status (working queue)).1 in
      submit-known next again done (with_status status (queued now task)) (
        ap (λ id. lookup id done.task) (sym same)
        ∙ update-known task.task_id status queue (queued now task) (submit-new now task s missing))

  -- Also a failing engine leaves the tasks that are there.
  pub submit_task_table :
      (now : ℤ) (task : Task) (s : Store F)
      → (submit_task now task s).1.task ≡ (
          if faulty s.faults
          then s.task
          else upsert task.task_id (queued now task) (λ old. old) s.task)
  unfolding submit_task
  submit_task_table now task s = ground arith

  pub submit_task_kept :
      (now : ℤ) (task : Task) (s : Store F) (k : String) (row : TaskRow)
      → lookup k s.task ≡ some row
      → lookup k (submit_task now task s).1.task ≡ some row
  submit_task_kept now task s k row found =
      ap (lookup k) (submit_task_table now task s)
      ∙ ground (
        arith,
        found,
        eq_iff task.task_id k,
        lookup-upsert task.task_id k (queued now task) (λ old. old) s.task,
      )
