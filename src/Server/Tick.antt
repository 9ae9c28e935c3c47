-- ===== src/Server/Tick.antt =====
-- What a whole tick of a node does to its table of tasks.
use immich_go_server.Prelude.{
  ℤ, String, ◌≡◌, refl, sym, subst, ap, ◌∙◌, inl, inr, ◌||◌, [], Option, none, some, ◌==◌, Assoc,
  lookup, retain, Bool-cases, Result, ok, err, Post,
}
use immich_go_server.Float64.{Float64}
use immich_go_server.Config.{default}
use immich_go_server.Model.{Disk, Task}
use immich_go_server.Messages.{StatePayload}
use immich_go_server.Discovery.{Registry}
use immich_go_server.Store.{Store, TaskRow, StoreAction, query, rows_of}
use immich_go_server.Store.Directories.{list_directories}
use immich_go_server.Store.Assets.{list_assets}
use immich_go_server.Store.Replicas.{list_replicas, replica_count, count_healthy_replicas}
use immich_go_server.Store.Tasks.{submit_task}
use immich_go_server.Store.Tasks.Table.{IsTable, submit_task-IsTable}
use immich_go_server.Store.Tasks.Lifecycle.{submit_task_kept}
use immich_go_server.World.{World, WorldAction, Failure, local}
use immich_go_server.World.Frame.{submit_task_host, local_store}
use immich_go_server.Worker.Tasks.Frame.{IsStill, WorldStill, Keeps, local-Keeps, query-Keeps}
use immich_go_server.Worker.Tasks.Settles.{IsAfter, run_once_settles}
use immich_go_server.Coordinator.Cycle.{IsPlanned, run_balancing_cycle-keeps}
use immich_go_server.Coordinator.Cycle
use immich_go_server.Federation.{
  Client, GlobalView, owner_of, sent, submit_routed, global_repository,
}
use immich_go_server.Server.{
  peer_url, node_locator, federate, balance, work, schedule, tick, no_config,
}
use immich_go_server.Server.Pull.{node_locator-IsQuiet, federate-Keeps}

module _ {F : Type 0} (k : String) (row : TaskRow) where
  -- The database works, its table of tasks has one row for an id, and `row` is the one of `k`.
  abbrev pub IsReady : Store F → Type 0
  IsReady s = (s.faults ≡ []) × IsTable s.task × (lookup k s.task ≡ some row)

  IsReady-of_still :
      (s : Store F) (T : Assoc TaskRow)
      → IsTable T
      → lookup k T ≡ some row
      → IsStill T s
      → IsReady s
  IsReady-of_still s T table found (same, works) =
      (works, rw same table, ap (lookup k) same ∙ found)

  unkept :
      {A : Type 0} (T : Assoc TaskRow) (r : Result Failure A × World F)
      → Post (λ _. WorldStill T) (λ _. WorldStill T) r
      → WorldStill T r.1
  unkept T (ok a, w) h = h
  unkept T (err e, w) h = h

  -- What leaves the table as it is leaves it ready.
  Keeps-IsReady :
      {A : Type 0} (act : WorldAction F A)
      → ((T : Assoc TaskRow) → Keeps T act)
      → (w : World F) → IsReady w.host.store
      → IsReady (act w).1.host.store
  Keeps-IsReady act keeps w (works, table, found) =
      IsReady-of_still (act w).1.host.store w.host.store.task table found
        (unkept w.host.store.task (act w) ((keeps w.host.store.task).at w (refl, works)))

  submit-IsReady : (now : ℤ) (t : Task) (s : Store F) → IsReady s → IsReady (submit_task now t s).1
  unfolding submit_task
  submit-IsReady now t s (works, table, found) =
      (rw works refl, submit_task-IsTable now t s table, submit_task_kept now t s k row found)

  reading-IsReady :
      {A : Type 0} (f : Store F → A) (act : StoreAction F A)
      → act ≡ query f
      → (w : World F) → IsReady w.host.store
      → IsReady (local act w).1.host.store
  reading-IsReady f act same w h =
      rw same (Keeps-IsReady (local (query f)) (λ T. local-Keeps T (query f) (query-Keeps T f)) w h)

module _ (fl : Float64) (sign_payload : String → String → ℤ → StatePayload fl.F → String)
    (peer_secret : String → String) (peer_now : String → ℤ) (client : Client) (reg : Registry)
    (task_id k : String) (row : TaskRow) where
  abbrev Ready : World fl.F → Type 0
  Ready w = IsReady k row w.host.store

  module _ (disks : Assoc (Disk fl.F)) where
    sent-Ready :
        (owner : String) (url : Option String) (t : Task) (w : World fl.F)
        → Ready w
        → Ready
            (sent fl sign_payload peer_secret peer_now client client.now
              (peer_url reg)
              client.self_node_id
              disks
              owner
              url
              t
              w).1
    sent-Ready owner none t w h = h
    sent-Ready owner (some url) t w h = rw (submit_task_host (peer_now url) url t w) h

    routed-Ready :
        (t : Task) (w : World fl.F)
        → Ready w
        → Ready
            (submit_routed fl sign_payload peer_secret peer_now client client.now
              (peer_url reg)
              client.self_node_id
              disks
              t
              w).1
    unfolding submit_routed
    routed-Ready t w h =
        let owner =
          owner_of fl sign_payload peer_secret peer_now client client.now (peer_url reg)
            client.self_node_id disks (lookup t.dst_disk disks) in
        elim (Bool-cases (owner == "" || owner == client.self_node_id)) [
          | inl here ↦ rw here (
              subst (IsReady k row) (sym (local_store (submit_task client.now t) w))
                (submit-IsReady k row client.now t w.host.store h))
          | inr there ↦ rw there (sent-Ready owner (peer_url reg owner) t w h)
        ]

    repository-Keeps :
        Cycle.Keeps fl
          (global_repository fl sign_payload peer_secret peer_now client client.now
            (peer_url reg)
            client.self_node_id
            disks)
          (default fl)
          Ready
    unfolding list_directories list_assets list_replicas replica_count count_healthy_replicas
    repository-Keeps = record {
      directories = reading-IsReady k row (λ s. rows_of s.directory) list_directories refl;
      disks = λ w h. h;
      assets = reading-IsReady k row (λ s. rows_of s.asset) list_assets refl;
      replicas = λ id.
          reading-IsReady k row (λ s. retain (λ r. r.asset_id == id) (rows_of s.replica))
            (list_replicas id) refl;
      count = λ id w h. (rw (h.0) refl, rw (h.0) (h.1), rw (h.0) (h.2));
      submit = λ t w planned h. routed-Ready t w h;
    }

  balance-Ready :
      (gv : GlobalView fl.F) (w : World fl.F)
      → Ready w
      → Ready (balance fl sign_payload peer_secret peer_now client reg task_id gv w)
  balance-Ready gv w h = elim (Bool-cases (gv.coordinator == client.self_node_id)) [
    | inl t ↦
        rw t (run_balancing_cycle-keeps fl _ (default fl) Ready (repository-Keeps gv.disks) w h)
    | inr f ↦ rw f h
  ]

  abbrev Settled : World fl.F → Type 0
  Settled w =
      (row' : TaskRow) × (lookup k w.host.store.task ≡ some row')
      × IsAfter (row.task.status == "QUEUED") row row'

  work-Settled :
      (disks : Assoc (Disk fl.F)) (w : World fl.F)
      → Ready w
      → Settled (work fl sign_payload peer_secret peer_now client reg task_id disks w)
  work-Settled disks w (works, table, found) =
      (run_once_settles fl (node_locator client.self_node_id disks reg)
        (no_config fl sign_payload peer_secret peer_now client reg task_id) client.self_node_id
        task_id client.now w k row (node_locator-IsQuiet client.self_node_id disks reg) works table
        found).1

  schedule-Settled :
      (r : Result Failure (GlobalView fl.F) × World fl.F)
      → Ready r.1
      → Settled (schedule fl sign_payload peer_secret peer_now client reg task_id r)
  schedule-Settled (ok gv, w) h =
      work-Settled gv.disks (balance fl sign_payload peer_secret peer_now client reg task_id gv w)
        (balance-Ready gv w h)
  schedule-Settled (err e, w) h = work-Settled [] w h

  -- On a node whose database works and whose calls all return, whatever its peers answer, what the coordinator submits and how the
  -- copies end, a tick leaves each task that was QUEUED before it DONE or FAILED, the rest of its row as it
  -- was, and each other task as it was.
  pub tick_settles :
      (w : World fl.F)
      → w.host.store.faults ≡ []
      → IsTable w.host.store.task
      → lookup k w.host.store.task ≡ some row
      → (row' : TaskRow) × (lookup k
            (tick fl sign_payload peer_secret peer_now client reg task_id w).host.store.task
          ≡ some row')
        × IsAfter (row.task.status == "QUEUED") row row'
  unfolding tick
  tick_settles w works table found =
      schedule-Settled (federate fl sign_payload peer_secret peer_now client reg task_id w) (
        Keeps-IsReady k row _
          (λ T. federate-Keeps fl sign_payload peer_secret peer_now client T reg task_id) w
          (works, table, found))
