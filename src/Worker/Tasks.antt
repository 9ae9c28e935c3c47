-- ===== src/Worker/Tasks.antt =====
-- internal/worker/worker.go: migrations, replicas, and the loop over the queued tasks.
pub mod Frame
pub mod Releases
pub mod Copies
pub mod Keeps
pub mod Settles
use immich_go_server.Prelude.{
  ℕ, ℤ, pos, String, Bool, true, false, not, ◌&&◌, ◌||◌, List, [], ◌∷◌, Option, none, some,
  if◌then◌else◌, ◌==◌, Result, ok, err, Action, pure, raise, ◌>>=◌, ◌>>◌,
}
use immich_go_server.Float64.{Float64}
use immich_go_server.Config.{Config}
use immich_go_server.Model.{Asset, Replica, Directory, Task}
use immich_go_server.Store.{Store}
use immich_go_server.Store.Replicas.{add_replica, list_replicas}
use immich_go_server.Store.Directories.{save_directory, get_directory}
use immich_go_server.Store.Assets.{list_assets_by_dir, get_asset}
use immich_go_server.Store.Tasks.{list_pending_tasks, update_task_status}
use immich_go_server.Release.{effective_config, mark_safe, to_release, release_local}
use immich_go_server.World.{
  World, WorldAction, Failure, no_peer_url, directory_not_found, asset_not_found,
  no_healthy_replica, unknown_task_type, on_host, local,
}
use immich_go_server.World.Client
use immich_go_server.Worker.{
  DiskLocator, replica_on, first_healthy, node_of, is_remote, copy_assets,
}

module _ (fl : Float64) (loc : DiskLocator fl.F) (cfg : Config fl.F) (node_id task_id : String)
    (now : ℤ) where
  abbrev pub Step : Type 0 → Type 0
  Step A = WorldAction fl.F A

  abbrev copy : String → String → List Asset → Step Unit
  copy = copy_assets fl loc cfg node_id task_id now

  abbrev remote : String → Bool
  remote node = is_remote fl loc cfg node_id task_id now node

  -- ---- migration ----

  abbrev pub found_there : String → Option (Directory fl.F) → Step (Directory fl.F)
  found_there dir_key none = raise (directory_not_found dir_key)
  found_there dir_key (some dir) = pure dir

  abbrev pub fetched : String → String → Option String → Step (Directory fl.F)
  fetched dir_key src_node none = raise (no_peer_url src_node)
  fetched dir_key src_node (some url) = Client.get_directory url dir_key >>= found_there dir_key

  abbrev pub directory_for : String → String → Option (Directory fl.F) → Step (Directory fl.F)
  directory_for dir_key src_node (some dir) = pure dir
  directory_for dir_key src_node none =
      if remote src_node
      then fetched dir_key src_node (loc.peer_url src_node)
      else raise (directory_not_found dir_key)

  pub add_replicas : String → List Asset → Step Unit
  add_replicas dst_disk [] = pure tt
  add_replicas dst_disk (a ∷ rest) =
      local (add_replica (replica_on node_id dst_disk a)) >> add_replicas dst_disk rest

  abbrev min_replicas : ℤ
  min_replicas = (effective_config fl cfg).min_replicas

  abbrev pub told_to_release : Task → List String → String → Option String → Step Unit
  told_to_release t assets src_node none = raise (no_peer_url src_node)
  told_to_release t assets src_node (some url) = Client.release_source url (record {
    dir_key = t.dir_key;
    src_disk = t.src_disk;
    dst_disk = t.dst_disk;
    release_node = src_node;
    release_assets = assets;
  })

  pub release_source : Task → List Asset → String → Step Unit
  release_source t assets src_node w =
      if remote src_node
      then (let (marked, s) = mark_safe min_replicas t.src_disk assets w.host.store in
          told_to_release t (to_release marked) src_node (loc.peer_url src_node)
            (record w { host = record w.host { store = s } }))
      else on_host (release_local min_replicas t.src_disk t.dst_disk assets) w

  abbrev pub told_of_rehost : Task → String → Option String → Step Unit
  told_of_rehost t src_node none = raise (no_peer_url src_node)
  told_of_rehost t src_node (some url) = Client.rehost_directory url t.dir_key src_node

  abbrev pub adopted : Task → Directory fl.F → Directory fl.F
  adopted t dir = record dir { node_id = node_id; disk_serial = t.dst_disk; last_eval_at = now }

  pub rehost : Task → Directory fl.F → String → Step Unit
  rehost t dir src_node =
      local (save_directory now (adopted t dir))
      >> (if remote src_node then told_of_rehost t src_node (loc.peer_url src_node) else pure tt)

  pub run_migration : Task → Step Unit
  run_migration t = do
    src_node ← node_of fl loc cfg node_id task_id now t.src_disk
    known ← local (get_directory t.dir_key)
    dir ← directory_for t.dir_key src_node known
    assets ← local (list_assets_by_dir t.dir_key)
    copy t.src_disk t.dst_disk assets
    add_replicas t.dst_disk assets
    release_source t assets src_node
    rehost t dir src_node

  -- ---- replicas ----

  abbrev pub replicate : Task → Asset → String → Step Unit
  replicate t a src_disk =
      if src_disk == ""
      then raise (no_healthy_replica t.asset_id)
      else copy src_disk t.dst_disk (a ∷ [])
        >> local (add_replica (replica_on node_id t.dst_disk a))

  abbrev pub replica_of : Task → Option Asset → Step Unit
  replica_of t none = raise (asset_not_found t.asset_id)
  replica_of t (some a) = do
    reps ← local (list_replicas t.asset_id)
    replicate t a (first_healthy reps)

  pub run_replica : Task → Step Unit
  run_replica t = local (get_asset t.asset_id) >>= replica_of t

  -- ---- the loop ----

  pub execute : Task → Step Unit
  execute t =
      if t.kind == "MIGRATION"
      then run_migration t
      else if t.kind == "REPLICA"
      then run_replica t
      else raise (unknown_task_type t.kind)

  -- `_ = w.Repo.UpdateTaskStatus(…)`
  abbrev pub set_status : String → String → World fl.F → World fl.F
  set_status id status w = (local (update_task_status id status) w).1

  abbrev pub end_status : Result Failure Unit → String
  end_status (ok _) = "DONE"
  end_status (err _) = "FAILED"

  unfoldable pub run_task : Task → World fl.F → World fl.F
  run_task t w =
      let (r, w') = execute t (set_status t.task_id "RUNNING" w) in
      set_status t.task_id (end_status r) w'

  unfoldable pub run_tasks : List Task → World fl.F → World fl.F
  run_tasks [] w = w
  run_tasks (t ∷ ts) w = run_tasks ts (run_task t w)

  unfoldable pub run_once : Step Unit
  run_once = do tasks ← local (list_pending_tasks "QUEUED"); λ w. (ok tt, run_tasks tasks w)
