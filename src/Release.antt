-- ===== src/Release.antt =====
-- The release of a migrated directory's source: internal/worker/worker.go decides which assets may lose
-- their source replica, and internal/clusterapi/clusterapi.go carries it out on a remote source node.
pub mod Local
pub mod Tests
pub mod Remote
use immich_go_server.Prelude.{
  ℕ, ℤ, pos, String, Bool, true, false, not, ◌&&◌, ◌||◌, List, [], ◌∷◌, map, Option, none, some,
  if◌then◌else◌, leb_ℤ, eqb_ℤ, length, ◌==◌, contains, retain, Result, ok, err, Action, pure, ◌>>=◌,
  ◌>>◌,
}
use immich_go_server.Float64.{Float64}
use immich_go_server.Config.{Config, default}
use immich_go_server.Model.{Asset, Replica}
use immich_go_server.Host.{Host, HostAction, BlobFile, remove_file, text_or_empty, on_store}
use immich_go_server.Store.{Store, StoreError, StoreAction}
use immich_go_server.Store.Disks.{disk_root, get_disk_location}
use immich_go_server.Store.Replicas.{list_replicas, delete_replica}
use immich_go_server.Store.Assets.{list_assets_by_dir}

-- The worker's configuration: an empty one means the default.
abbrev pub effective_config : (fl : Float64) → Config fl.F → Config fl.F
effective_config fl cfg = if eqb_ℤ cfg.min_replicas (pos 0) then default fl else cfg

abbrev pub is_spare : String → Replica → Bool
is_spare src_disk r = not (r.disk_serial == src_disk) && r.status == "HEALTHY"

abbrev enough : ℤ → String → Result StoreError (List Replica) → Bool
enough min src_disk (err _) = false
enough min src_disk (ok reps) = leb_ℤ min (pos (length (retain (is_spare src_disk) reps)))

module _ {F : Type 0} where
  -- `min` is `w.cfg().MinReplicas`.
  unfoldable pub safe_to_release : ℤ → String → String → Store F → Bool × Store F
  safe_to_release min asset_id src_disk s =
      if leb_ℤ min (pos 1)
      then (true, s)
      else let (reps, s') = list_replicas asset_id s in (enough min src_disk reps, s')

  -- The assets with their `safe[i]`.
  unfoldable pub mark_safe : ℤ → String → List Asset → Store F → List (Asset × Bool) × Store F
  mark_safe min src_disk [] s = ([], s)
  mark_safe min src_disk (a ∷ rest) s =
      let (safe, s₁) = safe_to_release min a.asset_id src_disk s in
      let (marked, s₂) = mark_safe min src_disk rest s₁ in ((a, safe) ∷ marked, s₂)

  unfoldable pub same_disk_root : String → String → Store F → Bool × Store F
  same_disk_root a b s =
      let (ra, s₁) = disk_root a s in
      let (rb, s₂) = disk_root b s₁ in
      (not (text_or_empty ra == "") && text_or_empty ra == text_or_empty rb, s₂)

  -- `os.Remove` of the source's bytes, unless the target's disk has the same root.
  unfoldable pub release_bytes : String → String → String → Asset → HostAction F Unit
  release_bytes src_root src_disk dst_disk a h =
      let (shared, s') = same_disk_root src_disk dst_disk h.store in
      let kept = shared || (src_root == "" || a.dir_key == "") in
      (
        ok tt,
        record h {
          store = s';
          files = if kept then h.files else remove_file src_root a.dir_key a.asset_id h.files;
        },
      )

  unfoldable pub release_each : String → String → String → List (Asset × Bool) → HostAction F Unit
  release_each src_root src_disk dst_disk [] = pure tt
  release_each src_root src_disk dst_disk ((a, safe) ∷ rest) =
      let more = release_each src_root src_disk dst_disk rest in
      if safe
      then on_store (delete_replica a.asset_id src_disk)
        >> (release_bytes src_root src_disk dst_disk a >> more)
      else more

  -- The source is on this node.
  unfoldable pub release_local : ℤ → String → String → List Asset → HostAction F Unit
  release_local min src_disk dst_disk assets h =
      let (marked, s₁) = mark_safe min src_disk assets h.store in
      let (root, s₂) = disk_root src_disk s₁ in
      release_each (text_or_empty root) src_disk dst_disk marked (record h { store = s₂ })

-- The source is on another node: the assets that it is told to release.
abbrev pub to_release : List (Asset × Bool) → List String
to_release [] = []
to_release ((a, safe) ∷ rest) =
    let more = to_release rest in if safe then a.asset_id ∷ more else more

pub record ReleaseRequest : Type 0 where
  pub dir_key : String
  pub src_disk : String
  pub dst_disk : String
  pub release_node : String
  pub release_assets : List String

abbrev pub is_incomplete : ReleaseRequest → Bool
is_incomplete req =
    req.dir_key == "" || (req.src_disk == "" || (req.dst_disk == "" || req.release_node == ""))

-- `allow`: an empty list stands for all assets of the directory.
abbrev pub allowed : List String → List Asset → List String
allowed [] assets = map (λ a. a.asset_id) assets
allowed (id ∷ ids) assets = id ∷ ids

abbrev pub remove_files : String → String → List String → List Asset → List BlobFile → List BlobFile
remove_files root dir_key allow [] files = files
remove_files root dir_key allow (a ∷ rest) files =
    remove_files root dir_key allow rest
      (if contains a.asset_id allow then remove_file root dir_key a.asset_id files else files)

abbrev elsewhere : String → Option String → Bool
elsewhere node_id none = true
elsewhere node_id (some node) = not (node == node_id)

module _ {F : Type 0} where
  pub release_rows : String → List String → List Asset → StoreAction F Unit
  release_rows src_disk allow [] = pure tt
  release_rows src_disk allow (a ∷ rest) =
      let more = release_rows src_disk allow rest in
      if contains a.asset_id allow then delete_replica a.asset_id src_disk >> more else more

  -- The bytes go unless the target's disk is mounted here.
  abbrev pub release_files : String → ReleaseRequest → List String → List Asset → Host F → Host F
  release_files node_id req allow assets h =
      let (node, s₁) = get_disk_location req.dst_disk h.store in
      if elsewhere node_id node
      then (let (found, s₂) = disk_root req.src_disk s₁ in
          let root = if text_or_empty found == "" then h.blob_root else text_or_empty found in
          record h { store = s₂; files = remove_files root req.dir_key allow assets h.files })
      else record h { store = s₁ }

  abbrev pub finish_release :
      String
      → ReleaseRequest
      → List String
      → List Asset
      → Host F
      → Result StoreError Unit × Store F
      → ℕ × Host F
  finish_release node_id req allow assets h (err _, s) = (500, record h { store = s })
  finish_release node_id req allow assets h (ok _, s) =
      (200, release_files node_id req allow assets (record h { store = s }))

  abbrev release_listed :
      String → ReleaseRequest → Host F → Result StoreError (List Asset) × Store F → ℕ × Host F
  release_listed node_id req h (err _, s) = (500, record h { store = s })
  release_listed node_id req h (ok assets, s) =
      let allow = allowed req.release_assets assets in
      finish_release node_id req allow assets h (release_rows req.src_disk allow assets s)

  -- The HTTP status of the answer, and the node after it. `none` is a body that cannot be decoded.
  pub handle_release_source : String → String → Option ReleaseRequest → Host F → ℕ × Host F
  handle_release_source node_id method none h = if method == "POST" then (400, h) else (405, h)
  handle_release_source node_id method (some req) h =
      if not (method == "POST")
      then (405, h)
      else if is_incomplete req
      then (400, h)
      else if req.release_node == node_id
      then release_listed node_id req h (list_assets_by_dir req.dir_key h.store)
      else (200, h)
