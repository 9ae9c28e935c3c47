-- ===== src/Coordinator/Cycle.antt =====
-- What a cycle can do to the repository: it reads, and it submits tasks that the balancer has planned.
use immich_go_server.Prelude.{
  ℕ, ◌+◌, String, ◌≡◌, refl, inl, inr, List, [], ◌∷◌, Option, none, some, Option-cases, Bool-cases,
  Result, ok, err, leb_ℤ,
}
use immich_go_server.Float64.{Float64}
use immich_go_server.Config.{Config}
use immich_go_server.Model.{Disk, Directory, Asset, Replica, Task}
use immich_go_server.Balancer.{MigrationPlan, plan_migration, select_replica_target}
use immich_go_server.Coordinator.{
  Repository, migration_task, replica_task, emit, failing, emit_replica, emit_existing,
  emit_migrations, emit_replicas, run_balancing_cycle,
}

module _ (fl : Float64) {E S : Type 0} (repo : Repository fl.F E S) (cfg : Config fl.F)
    (P : S → Type 0) where
  -- The task is one that the balancer plans from what the repository says.
  pub data IsPlanned : Task → Type 0 where
    migration :
        (dir : Directory fl.F) (disks : List (Disk fl.F)) (p : MigrationPlan)
        → plan_migration fl dir disks cfg ≡ some p
        → IsPlanned (migration_task dir.dir_key p)
    replica :
        (a : Asset) (existing : List Replica) (disks : List (Disk fl.F)) (d : Disk fl.F)
        → select_replica_target fl a existing disks cfg ≡ some d
        → IsPlanned (replica_task a.asset_id d.disk_serial)

  -- Reading keeps `P`, and so does the submission of a planned task.
  pub record Keeps : Type 0 where
    pub directories : (s : S) → P s → P (repo.list_directories s).1
    pub disks : (s : S) → P s → P (repo.list_disks s).1
    pub assets : (s : S) → P s → P (repo.list_assets s).1
    pub replicas : (id : String) (s : S) → P s → P (repo.list_replicas id s).1
    pub count : (id : String) (s : S) → P s → P (repo.replica_count id s).1
    pub submit : (t : Task) (s : S) → IsPlanned t → P s → P (repo.submit_task t s).1

  module _ (keeps : Keeps) where
    abbrev End : (ℕ × Result E Unit) × S → Type 0
    End r = P r.1

    emit-P :
        (r : Result E Unit × S) (n : ℕ) (rest : ℕ → S → (ℕ × Result E Unit) × S)
        → P r.1
        → ((m : ℕ) (s : S) → P s → End (rest m s))
        → End (emit fl repo cfg r n rest)
    emit-P (err e, s) n rest h f = h
    emit-P (ok _, s) n rest h f = f (n + 1) s h

    migrations-P :
        (disks : List (Disk fl.F)) (dirs : List (Directory fl.F)) (n : ℕ)
        (rest : ℕ → S → (ℕ × Result E Unit) × S)
        → ((m : ℕ) (s : S) → P s → End (rest m s))
        → (s : S) → P s
        → End (emit_migrations fl repo cfg disks dirs n rest s)
    unfolding emit_migrations
    migrations-P disks [] n rest f s h = f n s h
    migrations-P disks (dir ∷ dirs) n rest f s h =
        elim (Option-cases (plan_migration fl dir disks cfg)) [
          | inl never ↦ rw never (migrations-P disks dirs n rest f s h)
          | inr (p, e) ↦ rw e (
              emit-P (repo.submit_task (migration_task dir.dir_key p) s) n
                (λ m. emit_migrations fl repo cfg disks dirs m rest)
                (keeps.submit (migration_task dir.dir_key p) s (IsPlanned.migration dir disks p e)
                  h)
                (λ m s' h'. migrations-P disks dirs m rest f s' h'))
        ]

    existing-P :
        (disks : List (Disk fl.F)) (a : Asset) (o : Option (Disk fl.F)) (n : ℕ)
        (existing : List Replica) (rest : ℕ → S → (ℕ × Result E Unit) × S)
        → select_replica_target fl a existing disks cfg ≡ o
        → ((m : ℕ) (s : S) → P s → End (rest m s))
        → (s : S) → P s
        → End (emit_replica fl repo cfg a.asset_id o n rest s)
    existing-P disks a none n existing rest e f s h = f n s h
    existing-P disks a (some d) n existing rest e f s h =
        emit-P (repo.submit_task (replica_task a.asset_id d.disk_serial) s) n rest
          (keeps.submit (replica_task a.asset_id d.disk_serial) s
            (IsPlanned.replica a existing disks d e) h)
          f

    listed-P :
        (disks : List (Disk fl.F)) (a : Asset) (r : Result E (List Replica) × S) (n : ℕ)
        (rest : ℕ → S → (ℕ × Result E Unit) × S)
        → P r.1
        → ((m : ℕ) (s : S) → P s → End (rest m s))
        → End (emit_existing fl repo cfg disks a r n rest)
    listed-P disks a (err e, s) n rest h f = h
    listed-P disks a (ok existing, s) n rest h f =
        existing-P disks a (select_replica_target fl a existing disks cfg) n existing rest refl f s
          h

    replicas-P :
        (disks : List (Disk fl.F)) (assets : List Asset) (n : ℕ) (s : S)
        → P s
        → End (emit_replicas fl repo cfg disks assets n s)
    unfolding emit_replicas
    replicas-P disks [] n s h = h
    replicas-P disks (a ∷ rest) n s h =
        let (count, s') = repo.replica_count a.asset_id s in
        let h' = keeps.count a.asset_id s h in
        elim (Bool-cases (leb_ℤ cfg.min_replicas count)) [
          | inl enough ↦ rw enough (replicas-P disks rest n s' h')
          | inr few ↦ rw few (
              listed-P disks a (repo.list_replicas a.asset_id s') n
                (emit_replicas fl repo cfg disks rest) (keeps.replicas a.asset_id s' h')
                (λ m t k. replicas-P disks rest m t k))
        ]

    failing-P :
        {A : Type 0} (r : Result E A × S) (rest : A → S → (ℕ × Result E Unit) × S)
        → P r.1
        → ((a : A) (s : S) → P s → End (rest a s))
        → End (failing fl repo cfg r rest)
    failing-P (err e, s) rest h f = h
    failing-P (ok a, s) rest h f = f a s h

    -- Whatever holds of the repository, and is kept by reading and by the submission of any task that the
    -- balancer plans, holds after a cycle, also one that ends with an error.
    pub run_balancing_cycle-keeps : (s : S) → P s → P (run_balancing_cycle fl repo cfg s).1
    unfolding run_balancing_cycle
    run_balancing_cycle-keeps s h = failing-P (repo.list_disks s) _ (keeps.disks s h) λ disks s₁ h₁.
        failing-P (repo.list_directories s₁) _ (keeps.directories s₁ h₁) λ dirs s₂ h₂.
          failing-P (repo.list_assets s₂) _ (keeps.assets s₂ h₂) λ assets s₃ h₃.
            migrations-P disks dirs 0 (emit_replicas fl repo cfg disks assets)
              (λ m t k. replicas-P disks assets m t k) s₃ h₃
