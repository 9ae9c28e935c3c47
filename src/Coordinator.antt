-- ===== src/Coordinator.antt =====
-- internal/coordinator/coordinator.go: one cycle of balancing, over whatever keeps the data.
pub mod Cycle
pub mod Trace
pub mod Tests
pub mod Local
use immich_go_server.Prelude.{
  ℕ, ◌+◌, ℤ, pos, String, Bool, true, false, List, [], ◌∷◌, Option, none, some, if◌then◌else◌,
  leb_ℤ, concat, Result, ok, err, Action, pure, raise, continue, ◌>>=◌,
}
use immich_go_server.Float64.{Float64}
use immich_go_server.Config.{Config}
use immich_go_server.Model.{Disk, Directory, Asset, Replica, Task}
use immich_go_server.Balancer.{MigrationPlan, plan_migration, select_replica_target}

-- `Repository`, on a state `S` with errors `E`.
pub record Repository (F E S : Type 0) : Type 0 where
  pub list_directories : Action E S (List (Directory F))
  pub list_disks : Action E S (List (Disk F))
  pub list_assets : Action E S (List Asset)
  pub list_replicas : String → Action E S (List Replica)
  pub replica_count : String → S → ℤ × S
  pub submit_task : Task → Action E S Unit

abbrev pub migration_task : String → MigrationPlan → Task
migration_task dir_key p = record {
  task_id = concat "mig-" dir_key;
  kind = "MIGRATION";
  dir_key = dir_key;
  asset_id = "";
  src_disk = p.from_disk;
  dst_disk = p.to_disk;
  status = "";
}

abbrev pub replica_task : String → String → Task
replica_task asset_id dst_disk = record {
  task_id = concat "rep-" asset_id;
  kind = "REPLICA";
  dir_key = "";
  asset_id = asset_id;
  src_disk = "";
  dst_disk = dst_disk;
  status = "";
}

module _ (fl : Float64) {E S : Type 0} (repo : Repository fl.F E S) (cfg : Config fl.F) where
  -- The number of tasks so far comes back beside an error too.
  abbrev pub Emitting : Type 0
  Emitting = S → (ℕ × Result E Unit) × S

  abbrev pub emit : Result E Unit × S → ℕ → (ℕ → Emitting) → (ℕ × Result E Unit) × S
  emit (err e, s) emitted rest = ((emitted, err e), s)
  emit (ok _, s) emitted rest = rest (emitted + 1) s

  abbrev emit_plan : String → Option MigrationPlan → ℕ → (ℕ → Emitting) → Emitting
  emit_plan dir_key none emitted rest s = rest emitted s
  emit_plan dir_key (some p) emitted rest s =
      emit (repo.submit_task (migration_task dir_key p) s) emitted rest

  pub emit_migrations : List (Disk fl.F) → List (Directory fl.F) → ℕ → (ℕ → Emitting) → Emitting
  emit_migrations disks [] emitted rest = rest emitted
  emit_migrations disks (dir ∷ dirs) emitted rest =
      emit_plan dir.dir_key (plan_migration fl dir disks cfg) emitted
        (λ n. emit_migrations disks dirs n rest)

  abbrev pub emit_replica : String → Option (Disk fl.F) → ℕ → (ℕ → Emitting) → Emitting
  emit_replica asset_id none emitted rest s = rest emitted s
  emit_replica asset_id (some d) emitted rest s =
      emit (repo.submit_task (replica_task asset_id d.disk_serial) s) emitted rest

  abbrev pub emit_existing :
      List (Disk fl.F)
      → Asset
      → Result E (List Replica) × S
      → ℕ
      → (ℕ → Emitting)
      → (ℕ × Result E Unit) × S
  emit_existing disks a (err e, s) emitted rest = ((emitted, err e), s)
  emit_existing disks a (ok existing, s) emitted rest =
      emit_replica a.asset_id (select_replica_target fl a existing disks cfg) emitted rest s

  pub emit_replicas : List (Disk fl.F) → List Asset → ℕ → Emitting
  emit_replicas disks [] emitted s = ((emitted, ok tt), s)
  emit_replicas disks (a ∷ rest) emitted s =
      let (count, s') = repo.replica_count a.asset_id s in
      let more : ℕ → Emitting = λ n. emit_replicas disks rest n in
      if leb_ℤ cfg.min_replicas count
      then more emitted s'
      else emit_existing disks a (repo.list_replicas a.asset_id s') emitted more

  abbrev pub failing : {A : Type 0} → Result E A × S → (A → Emitting) → (ℕ × Result E Unit) × S
  failing (err e, s) rest = ((0, err e), s)
  failing (ok a, s) rest = rest a s

  pub run_balancing_cycle : Emitting
  unfolding emit_migrations emit_replicas
  run_balancing_cycle s = failing (repo.list_disks s) λ disks. λ s₁.
      failing (repo.list_directories s₁) λ dirs. λ s₂.
        failing (repo.list_assets s₂)
          λ assets. emit_migrations disks dirs 0 (emit_replicas disks assets)
