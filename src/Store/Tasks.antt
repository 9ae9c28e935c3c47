-- ===== src/Store/Tasks.antt =====
-- internal/store/store.go: the table `task`. `now` is the result of `time.Now().Unix()`.
pub mod Lifecycle
pub mod Table
use immich_go_server.Prelude.{
  ℤ, String, Bool, true, false, not, List, [], ◌∷◌, map, Option, none, some, if◌then◌else◌, ◌==◌,
  Assoc, lookup, insert, retain, Action, ◌>>=◌,
}
use immich_go_server.Model.{Task}
use immich_go_server.Store.{
  Store, TaskRow, StoreAction, exec, query, upsert, adjust, rows_of, faulty, called, engine_failed,
}

abbrev pub with_status : String → TaskRow → TaskRow
with_status status row = record row { task = record row.task { status = status } }

module _ {F : Type 0} where
  -- `INSERT OR IGNORE`: a task with a known id is dropped.
  unfoldable pub submit_task : ℤ → Task → StoreAction F Unit
  submit_task now task = exec λ s. record s {
    task =
        upsert task.task_id (record { task = record task { status = "QUEUED" }; created_at = now })
          (λ old. old) s.task;
  }

  unfoldable pub update_task_status : String → String → StoreAction F Unit
  update_task_status task_id status =
      exec (λ s. record s { task = adjust task_id (with_status status) s.task })

  unfoldable pub list_tasks_by : String → StoreAction F (List Task)
  list_tasks_by status_filter = query λ s.
      if not (status_filter == "")
      then retain (λ t. t.status == status_filter) (map (λ row. row.task) (rows_of s.task))
      else map (λ row. row.task) (rows_of s.task)

  pub list_tasks : StoreAction F (List Task)
  list_tasks = list_tasks_by ""

  unfoldable pub list_pending_tasks : String → StoreAction F (List Task)
  list_pending_tasks status = list_tasks_by status
