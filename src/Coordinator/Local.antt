-- ===== src/Coordinator/Local.antt =====
-- The coordinator over the database of its own node, which is what runs without peers.
use immich_go_server.Prelude.{ℤ, pos, String, ◌≡◌, ap, ◌∙◌, some, arith, lookup}
use immich_go_server.Float64.{Float64}
use immich_go_server.Config.{Config}
use immich_go_server.Store.{Store, StoreError, TaskRow}
use immich_go_server.Store.Disks.{list_disks}
use immich_go_server.Store.Directories.{list_directories}
use immich_go_server.Store.Assets.{list_assets}
use immich_go_server.Store.Replicas.{list_replicas, replica_count, count_healthy_replicas}
use immich_go_server.Store.Tasks.{submit_task}
use immich_go_server.Store.Tasks.Lifecycle.{submit_task_kept}
use immich_go_server.Coordinator.{Repository, run_balancing_cycle}
use immich_go_server.Coordinator.Cycle.{run_balancing_cycle-keeps}

module _ (fl : Float64) (now : ℤ) where
  abbrev counted : String → Store fl.F → ℤ × Store fl.F
  counted id s = let (n, s') = replica_count id s in (pos n, s')

  -- `*Store` as a `coordinator.Repository`.
  abbrev pub store_repository : Repository fl.F StoreError (Store fl.F)
  store_repository = record {
    list_directories = list_directories;
    list_disks = list_disks;
    list_assets = list_assets;
    list_replicas = list_replicas;
    replica_count = counted;
    submit_task = submit_task now;
  }

  -- Every task of `before` is in the table of `s` as it was.
  abbrev pub HasTasks : Store fl.F → Store fl.F → Type 0
  HasTasks before s =
      (k : String) (row : TaskRow) → lookup k before.task ≡ some row → lookup k s.task ≡ some row

  same_tasks :
      (before s s' : Store fl.F) → s'.task ≡ s.task → HasTasks before s → HasTasks before s'
  same_tasks before s s' e h k row found = ap (lookup k) e ∙ h k row found

  -- A cycle over the node's own database leaves every task that was there as it is, with its status and
  -- its disks, whatever calls of the engine fail.
  pub run_balancing_cycle-HasTasks :
      (cfg : Config fl.F) (s : Store fl.F)
      → HasTasks s (run_balancing_cycle fl store_repository cfg s).1
  unfolding list_directories list_disks list_assets list_replicas replica_count
      count_healthy_replicas
  run_balancing_cycle-HasTasks cfg s =
      run_balancing_cycle-keeps fl store_repository cfg (HasTasks s)
        (record {
          directories = λ t h. same_tasks s t (list_directories t).1 (ground arith) h;
          disks = λ t h. same_tasks s t (list_disks t).1 (ground arith) h;
          assets = λ t h. same_tasks s t (list_assets t).1 (ground arith) h;
          replicas = λ id t h. same_tasks s t (list_replicas id t).1 (ground arith) h;
          count = λ id t h. same_tasks s t (counted id t).1 (ground arith) h;
          submit = λ t u _ h k row found. submit_task_kept now t u k row (h k row found);
        })
        s (λ k row found. found)
