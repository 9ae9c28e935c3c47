-- ===== src/Worker/Tasks/Keeps.antt =====
-- No task writes to the table of tasks, whatever its calls of peers and of the disks do.
use immich_go_server.Prelude.{
  ℤ, String, List, [], ◌∷◌, Option, some, none, ◌==◌, Assoc, Bool-cases, inl, inr, lookup, retain,
}
use immich_go_server.Float64.{Float64}
use immich_go_server.Config.{Config}
use immich_go_server.Model.{Asset, Replica, Directory, Task}
use immich_go_server.Store.{TaskRow, rows_of, upsert}
use immich_go_server.Store.Replicas.{add_replica, list_replicas, replica_onto}
use immich_go_server.Store.Directories.{save_directory, get_directory, stamped, newer}
use immich_go_server.Store.Assets.{list_assets_by_dir, get_asset}
use immich_go_server.World.{local}
use immich_go_server.World.Client
use immich_go_server.World.Frame.{get_directory_host, rehost_directory_host, release_source_host}
use immich_go_server.Worker.{DiskLocator, replica_on, first_healthy, copy_assets, is_remote}
use immich_go_server.Worker.Tasks.{
  found_there, fetched, told_to_release, told_of_rehost, directory_for, add_replicas,
  release_source, rehost, run_migration, run_replica, replica_of, replicate, execute,
}
use immich_go_server.Worker.Tasks.Frame.{Keeps, local-Keeps, on_host-Keeps, query-Keeps, exec-Keeps}
use immich_go_server.Worker.Tasks.Releases.{mark_safe-IsStill, release_local-Keeps}
use immich_go_server.Worker.Tasks.Copies.{
  IsQuiet, raise-Keeps, pure-Keeps, if-Keeps, Keeps-bind, Keeps-then, Keeps-of_host, node_of-Keeps,
  copy_assets-Keeps,
}

module _ {F : Type 0} (T : Assoc TaskRow) where
  add_replica-Keeps : (r : Replica) → Keeps {F = F} T (local (add_replica r))
  unfolding add_replica
  add_replica-Keeps r = local-Keeps T (add_replica r) (
      exec-Keeps T (λ s. record s { replica = upsert r.replica_id r (replica_onto r) s.replica })
        (λ s h. h))

  list_replicas-Keeps : (id : String) → Keeps {F = F} T (local (list_replicas id))
  unfolding list_replicas
  list_replicas-Keeps id =
      local-Keeps T (list_replicas id)
        (query-Keeps T (λ s. retain (λ r. r.asset_id == id) (rows_of s.replica)))

  get_asset-Keeps : (id : String) → Keeps {F = F} T (local (get_asset id))
  unfolding get_asset
  get_asset-Keeps id = local-Keeps T (get_asset id) (query-Keeps T (λ s. lookup id s.asset))

  list_assets-Keeps : (dir_key : String) → Keeps {F = F} T (local (list_assets_by_dir dir_key))
  unfolding list_assets_by_dir
  list_assets-Keeps dir_key =
      local-Keeps T (list_assets_by_dir dir_key)
        (query-Keeps T (λ s. retain (λ a. a.dir_key == dir_key) (rows_of s.asset)))

  directory-Keeps : (dir_key : String) → Keeps {F = F} T (local (get_directory dir_key))
  unfolding get_directory
  directory-Keeps dir_key =
      local-Keeps T (get_directory dir_key) (query-Keeps T (λ s. lookup dir_key s.directory))

  pub save_directory-Keeps :
      (now : ℤ) (dir : Directory F) → Keeps T (local (save_directory now dir))
  unfolding save_directory
  save_directory-Keeps now dir = local-Keeps T (save_directory now dir) (
      exec-Keeps T
        (λ s. record s {
          directory = upsert dir.dir_key (stamped now dir) (newer (stamped now dir)) s.directory;
        })
        (λ s h. h))

module _ (fl : Float64) (loc : DiskLocator fl.F) (cfg : Config fl.F) (node_id task_id : String)
    (now : ℤ) (T : Assoc TaskRow) (quiet : IsQuiet loc) where
  found_there-Keeps :
      (dir_key : String) (o : Option (Directory fl.F))
      → Keeps T (found_there fl loc cfg node_id task_id now dir_key o)
  found_there-Keeps dir_key none = raise-Keeps T _
  found_there-Keeps dir_key (some dir) = pure-Keeps T dir

  fetched-Keeps :
      (dir_key node : String) (url : Option String)
      → Keeps T (fetched fl loc cfg node_id task_id now dir_key node url)
  fetched-Keeps dir_key node none = raise-Keeps T _
  fetched-Keeps dir_key node (some url) =
      Keeps-bind T (Client.get_directory url dir_key) _
        (Keeps-of_host T _ (get_directory_host url dir_key)) (found_there-Keeps dir_key)

  directory_for-Keeps :
      (dir_key node : String) (o : Option (Directory fl.F))
      → Keeps T (directory_for fl loc cfg node_id task_id now dir_key node o)
  directory_for-Keeps dir_key node (some dir) = pure-Keeps T dir
  directory_for-Keeps dir_key node none =
      if-Keeps T (is_remote fl loc cfg node_id task_id now node) _ _
        (fetched-Keeps dir_key node (loc.peer_url node)) (raise-Keeps T _)

  add_replicas-Keeps :
      (dst_disk : String) (assets : List Asset)
      → Keeps T (add_replicas fl loc cfg node_id task_id now dst_disk assets)
  unfolding add_replicas
  add_replicas-Keeps dst_disk [] = pure-Keeps T tt
  add_replicas-Keeps dst_disk (a ∷ rest) =
      Keeps-then T _ _ (add_replica-Keeps T (replica_on node_id dst_disk a))
        (add_replicas-Keeps dst_disk rest)

  told_to_release-Keeps :
      (t : Task) (ids : List String) (node : String) (url : Option String)
      → Keeps T (told_to_release fl loc cfg node_id task_id now t ids node url)
  told_to_release-Keeps t ids node none = raise-Keeps T _
  told_to_release-Keeps t ids node (some url) = Keeps-of_host T _ (release_source_host url _)

  release_source-Keeps :
      (t : Task) (assets : List Asset) (node : String)
      → Keeps T (release_source fl loc cfg node_id task_id now t assets node)
  unfolding release_source
  release_source-Keeps t assets node = record {
    at = λ w h. elim (Bool-cases (is_remote fl loc cfg node_id task_id now node)) [
      | inl there ↦ rw there (
          (told_to_release-Keeps t _ node (loc.peer_url node)).at _
            (mark_safe-IsStill T _ t.src_disk assets w.host.store h))
      | inr here ↦
          rw here
            ((on_host-Keeps T _ (release_local-Keeps T _ t.src_disk t.dst_disk assets)).at w h)
    ];
  }

  told_of_rehost-Keeps :
      (t : Task) (node : String) (url : Option String)
      → Keeps T (told_of_rehost fl loc cfg node_id task_id now t node url)
  told_of_rehost-Keeps t node none = raise-Keeps T _
  told_of_rehost-Keeps t node (some url) =
      Keeps-of_host T _ (rehost_directory_host url t.dir_key node)

  rehost-Keeps :
      (t : Task) (dir : Directory fl.F) (node : String)
      → Keeps T (rehost fl loc cfg node_id task_id now t dir node)
  unfolding rehost
  rehost-Keeps t dir node = Keeps-then T _ _ (save_directory-Keeps T now _) (
      if-Keeps T (is_remote fl loc cfg node_id task_id now node) _ _
        (told_of_rehost-Keeps t node (loc.peer_url node)) (pure-Keeps T tt))

  copy-Keeps :
      (src_disk dst_disk : String) (assets : List Asset)
      → Keeps T (copy_assets fl loc cfg node_id task_id now src_disk dst_disk assets)
  copy-Keeps = copy_assets-Keeps fl loc cfg node_id task_id now T quiet

  run_migration-Keeps : (t : Task) → Keeps T (run_migration fl loc cfg node_id task_id now t)
  unfolding run_migration
  run_migration-Keeps t =
      Keeps-bind T _ _ (node_of-Keeps fl loc cfg node_id task_id now T quiet t.src_disk) λ node.
        Keeps-bind T _ _ (directory-Keeps T t.dir_key) λ known.
          Keeps-bind T _ _ (directory_for-Keeps t.dir_key node known) λ dir.
            Keeps-bind T _ _ (list_assets-Keeps T t.dir_key) λ assets.
              Keeps-then T _ _ (copy-Keeps t.src_disk t.dst_disk assets) (
                Keeps-then T _ _ (add_replicas-Keeps t.dst_disk assets)
                  (Keeps-then T _ _ (release_source-Keeps t assets node) (rehost-Keeps t dir node)))

  replicate-Keeps :
      (t : Task) (a : Asset) (src_disk : String)
      → Keeps T (replicate fl loc cfg node_id task_id now t a src_disk)
  replicate-Keeps t a src_disk = if-Keeps T (src_disk == "") _ _ (raise-Keeps T _) (
      Keeps-then T _ _ (copy-Keeps src_disk t.dst_disk (a ∷ []))
        (add_replica-Keeps T (replica_on node_id t.dst_disk a)))

  replica_of-Keeps :
      (t : Task) (o : Option Asset) → Keeps T (replica_of fl loc cfg node_id task_id now t o)
  replica_of-Keeps t none = raise-Keeps T _
  replica_of-Keeps t (some a) =
      Keeps-bind T _ _ (list_replicas-Keeps T t.asset_id)
        (λ reps. replicate-Keeps t a (first_healthy reps))

  pub execute-Keeps : (t : Task) → Keeps T (execute fl loc cfg node_id task_id now t)
  unfolding execute run_replica
  execute-Keeps t = if-Keeps T (t.kind == "MIGRATION") _ _ (run_migration-Keeps t) (
      if-Keeps T (t.kind == "REPLICA") _ _
        (Keeps-bind T _ _ (get_asset-Keeps T t.asset_id) (replica_of-Keeps t)) (raise-Keeps T _))
