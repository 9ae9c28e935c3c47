-- ===== src/Worker.antt =====
-- internal/worker/worker.go: the tasks that a node carries out for the disks that are mounted on it.
pub mod Tasks
pub mod Trees
pub mod Delivery
pub mod Tests
use immich_go_server.Prelude.{
  ℕ, ℤ, pos, String, Bool, true, false, not, ◌&&◌, ◌||◌, List, [], ◌∷◌, ◌++◌, Option, none, some,
  if◌then◌else◌, ◌==◌, concat, Assoc, lookup, insert, erase, retain, Result, ok, err, Action, pure,
  raise, require, ◌>>=◌, ◌>>◌, codes,
}
use immich_go_server.Float64.{Float64}
use immich_go_server.Config.{Config}
use immich_go_server.Model.{Asset, Replica, Directory, Task}
use immich_go_server.Migration.{Manifest, state_verified}
use immich_go_server.Store.{Store}
use immich_go_server.Store.Disks.{disk_root}
use immich_go_server.Store.Replicas.{add_replica, list_replicas, replica_id}
use immich_go_server.Store.Directories.{save_directory}
use immich_go_server.Store.Directories
use immich_go_server.Store.Assets.{list_assets_by_dir, get_asset}
use immich_go_server.Store.Tasks.{list_pending_tasks, update_task_status}
use immich_go_server.Host.{Host, BlobFile, dir_path, text_or_empty}
use immich_go_server.Api.Blob.{root_or, has_dots}
use immich_go_server.Executor.{Job, Error, Outcome, Bytes, next_failure, start, run}
use immich_go_server.Release.{effective_config, mark_safe, to_release, release_local}
use immich_go_server.World.{
  World, WorldAction, Failure, copy_failed, mkdir_failed, no_peer_url, no_blob_root,
  directory_not_found, asset_not_found, no_healthy_replica, unknown_task_type, not_verified,
  on_host, local,
}
use immich_go_server.World.Client

-- ---- the files of one directory on one disk ----

abbrev pub is_in : String → String → BlobFile → Bool
is_in root dir_key f = f.root == root && f.dir_key == dir_key

abbrev pub tree : String → String → List BlobFile → Assoc Bytes
tree root dir_key [] = []
tree root dir_key (f ∷ fs) =
    let rest = tree root dir_key fs in
    if is_in root dir_key f then (f.asset_id, f.bytes) ∷ rest else rest

abbrev pub files_of : String → String → Assoc Bytes → List BlobFile
files_of root dir_key [] = []
files_of root dir_key ((id, bytes) ∷ rest) =
    record { root = root; dir_key = dir_key; asset_id = id; bytes = bytes }
    ∷ files_of root dir_key rest

abbrev pub put_tree : String → String → Assoc Bytes → List BlobFile → List BlobFile
put_tree root dir_key target files =
    files_of root dir_key target ++ retain (λ f. not (is_in root dir_key f)) files

abbrev pub set_manifest : String → Option Manifest → Assoc Manifest → Assoc Manifest
set_manifest path none ms = erase path ms
set_manifest path (some m) ms = insert path m ms

abbrev no_manifest : Manifest
no_manifest = record {
  task_id = "";
  src_disk = "";
  dst_disk = "";
  dir_key = "";
  total_files = 0;
  total_bytes = pos 0;
  completed = [];
  partial = [];
  state = "";
}

-- What the blob handler of a peer reads from, if its database works.
abbrev pub peer_tree : {F : Type 0} → String → String → Option (Host F) → Assoc Bytes
peer_tree disk dir_key none = []
peer_tree disk dir_key (some h) =
    if disk == "" || dir_key == ""
    then (if h.blob_root == "" then [] else tree h.blob_root "" h.files)
    else let root = root_or h.blob_root (disk_root disk h.store).0 in
      if root == "" || has_dots (codes dir_key) then [] else tree root dir_key h.files

-- `DiskLocator`. The database may be asked.
pub record DiskLocator (F : Type 0) : Type 0 where
  pub disk_node : String → Store F → Option String × Store F
  pub peer_url : String → Option String

abbrev pub replica_on : String → String → Asset → Replica
replica_on node_id dst_disk a = record {
  replica_id = replica_id a.asset_id dst_disk;
  asset_id = a.asset_id;
  disk_serial = dst_disk;
  node_id = node_id;
  checksum = a.checksum;
  status = "HEALTHY";
}

abbrev pub first_healthy : List Replica → String
first_healthy [] = ""
first_healthy (r ∷ rs) =
    let later = first_healthy rs in if r.status == "HEALTHY" then r.disk_serial else later

-- `node_id` is `w.NodeID`, `now` is the time, and `task_id` the result of `genTaskID`.
module _ (fl : Float64) (loc : DiskLocator fl.F) (cfg : Config fl.F) (node_id task_id : String)
    (now : ℤ) where
  abbrev pub Step : Type 0 → Type 0
  Step A = WorldAction fl.F A

  -- ---- copying ----

  abbrev pub node_of : String → Step String
  node_of disk w =
      let (node, s) = loc.disk_node disk w.host.store in
      (ok (text_or_empty node), record w { host = record w.host { store = s } })

  abbrev pub root_of : String → Step String
  root_of disk w =
      let (root, s) = disk_root disk w.host.store in
      (ok (text_or_empty root), record w { host = record w.host { store = s } })

  abbrev rest_of : List Outcome → List Outcome
  rest_of [] = []
  rest_of (_ ∷ os) = os

  abbrev pub make_dir : Step Unit
  make_dir w = elim (next_failure w.outcomes) [
    | some _ ↦ (err mkdir_failed, record w { outcomes = rest_of w.outcomes })
    | none ↦ (ok tt, record w { outcomes = rest_of w.outcomes })
  ]

  abbrev pub job_for : Bool → Assoc Bytes → String → String → World fl.F → Job
  job_for remote source dst_root dir_key w = record {
    remote = remote;
    source = source;
    target = tree dst_root dir_key w.host.files;
    original = [];
    stored = lookup (dir_path dst_root dir_key) w.host.manifests;
    m = no_manifest;
    outcomes = w.outcomes;
  }

  abbrev pub after_job : String → String → World fl.F → Job → World fl.F
  after_job dst_root dir_key w j = record w {
    host = record w.host {
      files = put_tree dst_root dir_key j.target w.host.files;
      manifests = set_manifest (dir_path dst_root dir_key) j.stored w.host.manifests;
    };
    outcomes = j.outcomes;
  }

  abbrev pub verdict : Result Error String → Result Failure Unit
  verdict (err e) = err (copy_failed e)
  verdict (ok state) = if state == state_verified then ok tt else err (not_verified state)

  -- `Start` and `Run` of an executor over one directory
  pub run_job : Bool → Assoc Bytes → String → String → String → String → List Asset → Step Unit
  run_job remote source src_disk dst_disk dst_root dir_key assets w =
      let (r, j) =
        (start task_id src_disk dst_disk assets >> run assets)
          (job_for remote source dst_root dir_key w) in
      (verdict r, after_job dst_root dir_key w j)

  abbrev pub is_remote : String → Bool
  is_remote node = not (node == "") && not (node == node_id)

  abbrev pub copy_remote :
      String → String → String → String → String → List Asset → Option String → Step Unit
  copy_remote src_disk dst_disk dst_root dir_key src_node assets none = raise (no_peer_url src_node)
  copy_remote src_disk dst_disk dst_root dir_key src_node assets (some url) = λ w.
      run_job true (peer_tree src_disk dir_key (lookup url w.peers)) src_disk dst_disk dst_root
        dir_key assets w

  abbrev pub copy_here : String → String → String → String → List Asset → String → Step Unit
  copy_here src_disk dst_disk dst_root dir_key assets src_root w =
      run_job false (tree src_root dir_key w.host.files) src_disk dst_disk dst_root dir_key assets w

  abbrev pub copy_local : String → String → String → String → List Asset → Step Unit
  copy_local src_disk dst_disk dst_root dir_key assets = do
    src_root ← root_of src_disk
    if dir_path src_root dir_key == dir_path dst_root dir_key
        then pure tt
        else copy_here src_disk dst_disk dst_root dir_key assets src_root

  abbrev pub copy_between : String → String → String → String → List Asset → String → Step Unit
  copy_between src_disk dst_disk dst_root dir_key assets src_node =
      if is_remote src_node
      then copy_remote src_disk dst_disk dst_root dir_key src_node assets (loc.peer_url src_node)
      else copy_local src_disk dst_disk dst_root dir_key assets

  pub copy_assets : String → String → List Asset → Step Unit
  unfolding run_job
  copy_assets src_disk dst_disk [] = pure tt
  copy_assets src_disk dst_disk (a ∷ rest) = do
    dst_root ← root_of dst_disk
    require (not (dst_root == "")) (no_blob_root dst_disk)
    make_dir
    src_node ← node_of src_disk
    copy_between src_disk dst_disk dst_root a.dir_key (a ∷ rest) src_node
