-- ===== src/Coordinator/Trace.antt =====
-- Which tasks a cycle submits, over a repository whose calls work and whose answers stay the same.
use immich_go_server.Prelude.{
  ℕ, ◌+◌, ℤ, String, ◌≡◌, List, [], ◌∷◌, ◌++◌, Option, none, some, Result, ok, leb_ℤ, length,
  if◌then◌else◌, concat,
}
use immich_go_server.Float64.{Float64}
use immich_go_server.Config.{Config}
use immich_go_server.Model.{Disk, Directory, Asset, Replica, Task}
use immich_go_server.Balancer.{MigrationPlan, plan_migration, select_replica_target}
use immich_go_server.Coordinator.{Repository}

-- The repository answers every question by what is given here, and keeps the tasks in the order in which they
-- are submitted.
pub record Answers {F E S : Type 0} (repo : Repository F E S) (taken : S → List Task)
    (disks : List (Disk F)) (dirs : List (Directory F)) (assets : List Asset)
    (replicas : String → List Replica) (count : String → ℤ) : Type 0 where
  pub directories : (s : S) → repo.list_directories s ≡ (ok dirs, s)
  pub mounted : (s : S) → repo.list_disks s ≡ (ok disks, s)
  pub listed : (s : S) → repo.list_assets s ≡ (ok assets, s)
  pub existing : (id : String) (s : S) → repo.list_replicas id s ≡ (ok (replicas id), s)
  pub counted : (id : String) (s : S) → repo.replica_count id s ≡ (count id, s)
  pub submitted : (t : Task) (s : S) → (repo.submit_task t s).0 ≡ ok tt
  pub kept : (t : Task) (s : S) → taken (repo.submit_task t s).1 ≡ taken s ++ t ∷ []

module _ (fl : Float64) (cfg : Config fl.F) (disks : List (Disk fl.F)) where
  -- The task for a move that the balancer plans.
  abbrev move_of : Directory fl.F → Option MigrationPlan → List Task
  move_of dir none = []
  move_of dir (some p) =
      record {
        task_id = concat "mig-" dir.dir_key;
        kind = "MIGRATION";
        dir_key = dir.dir_key;
        asset_id = "";
        src_disk = p.from_disk;
        dst_disk = p.to_disk;
        status = "";
      }
      ∷ []

  abbrev pub moves : List (Directory fl.F) → List Task
  moves [] = []
  moves (dir ∷ dirs) = move_of dir (plan_migration fl dir disks cfg) ++ moves dirs

  -- The task for a replica on a disk that the balancer chooses.
  abbrev copy_of : Asset → Option (Disk fl.F) → List Task
  copy_of a none = []
  copy_of a (some d) =
      record {
        task_id = concat "rep-" a.asset_id;
        kind = "REPLICA";
        dir_key = "";
        asset_id = a.asset_id;
        src_disk = "";
        dst_disk = d.disk_serial;
        status = "";
      }
      ∷ []

  -- Only for assets with fewer than `MinReplicas` replicas.
  abbrev pub copies : (String → List Replica) → (String → ℤ) → List Asset → List Task
  copies replicas count [] = []
  copies replicas count (a ∷ rest) =
      (if leb_ℤ cfg.min_replicas (count a.asset_id)
        then []
        else copy_of a (select_replica_target fl a (replicas a.asset_id) disks cfg))
      ++ copies replicas count rest

module _ (fl : Float64) {E S : Type 0} (repo : Repository fl.F E S) (cfg : Config fl.F)
    (taken : S → List Task) (disks : List (Disk fl.F)) (dirs : List (Directory fl.F))
    (assets : List Asset) (replicas : String → List Replica) (count : String → ℤ)
    (answers : Answers repo taken disks dirs assets replicas count) where
  -- From `n` tasks that were submitted and `before`, the tasks `ts` follow, and there is no error.
  abbrev Emits : ℕ → List Task → List Task → (ℕ × Result E Unit) × S → Type 0
  Emits n before ts r = (r.0 ≡ (n + length ts, ok tt)) × (taken r.1 ≡ before ++ ts)
