-- ===== src/Media.antt =====
-- internal/clusterapi/clusterapi.go: the media API that the Immich clients use. SHA-256, the formats of
-- times and the table of MIME types are code outside of the repository, in `Formats`. A file is known as in
-- Host, whatever the name is that it gets on the disk. `Faults` says which calls of the file system fail.
pub mod Upload
pub mod Tests
use immich_go_server.Prelude.{
  ℕ, ℤ, pos, String, Bool, true, false, not, ◌&&◌, ◌||◌, List, [], ◌∷◌, map, Option, none, some,
  if◌then◌else◌, ◌==◌, Assoc, lookup, take, length, Result, ok, err, Action, pure, raise, ◌>>=◌,
  ◌>>◌,
}
use text.Mathlib.Text.{starts_with}
use immich_go_server.Float64.{Float64}
use immich_go_server.Model.{Asset, AssetMeta, Replica, Disk}
use immich_go_server.Store.{Store, StoreError, StoreAction}
use immich_go_server.Store.Disks.{list_mounted_disks, disk_root}
use immich_go_server.Store.Replicas.{list_replicas}
use immich_go_server.Store.Assets.{
  list_assets, get_asset, lookup_device_assets, save_asset_meta, get_asset_meta, save_device_asset,
}
use immich_go_server.Store.Uploads.{save_uploaded_asset, delete_asset}
use immich_go_server.Host.{Host, BlobFile, find_file, remove_file, dir_path}
use immich_go_server.Ingest.{MetaAsset, Sidecars, flush_meta, remove_asset_from_meta}

pub record Formats : Type 0 where
  pub checksum : List ℕ → String
  pub dir_key_of : String → String → String
  pub captured_at : String → String → String
  pub mime_of : String → String

pub record Faults : Type 0 where
  pub mkdir_fails : Bool
  pub write_fails : Option ℕ
  pub meta_fails : Bool

-- The form of an upload; `asset_data` is `none` without a file.
pub record UploadRequest : Type 0 where
  pub device_asset_id : String
  pub device_id : String
  pub file_created_at : String
  pub file_modified_at : String
  pub is_favorite : Bool
  pub duration : String
  pub file_name : String
  pub asset_data : Option (List ℕ)

pub record Reply (A : Type 0) : Type 0 where
  pub status : ℕ
  pub body : Option A

abbrev pub failed : {A : Type 0} → ℕ → Reply A
failed status = record { status = status; body = none }

abbrev pub answer : {A : Type 0} → ℕ → A → Reply A
answer status a = record { status = status; body = some a }

-- The id of the asset, and whether it was there.
abbrev pub UploadReply : Type 0
UploadReply = Reply (String × Bool)

-- A node with the sidecars on its disks.
pub record Library (F : Type 0) : Type 0 where
  pub host : Host F
  pub sidecars : Sidecars

abbrev existing : Option String → String × Bool
existing none = ("", false)
existing (some id) = (id, true)

abbrev existence : Assoc String → String → String × Bool
existence known id = existing (lookup id known)

abbrev checks : Assoc String → List String → List (String × (String × Bool))
checks known ids = map (λ id. (id, existence known id)) ids

abbrev checked :
    List String → Result StoreError (Assoc String) → Reply (List (String × (String × Bool)))
checked ids (err _) = failed 500
checked ids (ok known) = answer 200 (checks known ids)

abbrev served : Option (List ℕ) → Reply (List ℕ)
served none = failed 404
served (some bytes) = answer 200 bytes

module _ {F : Type 0} where
  abbrev pub with_store : Library F → Store F → Library F
  with_store lib s = record lib { host = record lib.host { store = s } }

  -- ---- bulk-upload-check ----

  -- For each id of the device: the id of its asset, and whether there is one.
  pub handle_bulk_upload_check :
      Option (String × List String) → Store F → Reply (List (String × (String × Bool))) × Store F
  handle_bulk_upload_check none s = (failed 400, s)
  handle_bulk_upload_check (some (device_id, ids)) s =
      if device_id == ""
      then (answer 200 (checks [] ids), s)
      else (let (known, s') = lookup_device_assets device_id ids s in (checked ids known, s'))

  -- ---- where the bytes of an asset are ----

  abbrev pub or_root : String → Option String × Store F → String × Store F
  or_root blob_root (none, s) = (blob_root, s)
  or_root blob_root (some root, s) = (root, s)

  abbrev root_with : String → Result StoreError (List Replica) → Store F → String × Store F
  root_with blob_root (err _) s = (blob_root, s)
  root_with blob_root (ok []) s = (blob_root, s)
  root_with blob_root (ok (r ∷ _)) s = or_root blob_root (disk_root r.disk_serial s)

  -- The root of the first replica, or that of the node.
  abbrev pub root_of_asset : String → String → Store F → String × Store F
  root_of_asset blob_root id s = let (reps, s') = list_replicas id s in root_with blob_root reps s'

  -- ---- original and thumbnail, as far as the bytes go ----

  abbrev serve_found : String → Result StoreError (Option Asset) → Host F → Reply (List ℕ) × Host F
  serve_found id (err _) h = (failed 500, h)
  serve_found id (ok none) h = (failed 404, h)
  serve_found id (ok (some a)) h =
      let (root, s) = root_of_asset h.blob_root id h.store in
      let h' = record h { store = s } in
      if root == ""
      then (failed 500, h')
      else (served (find_file root a.dir_key a.asset_id h.files), h')

  unfoldable pub serve_asset_bytes : String → Host F → Reply (List ℕ) × Host F
  serve_asset_bytes id h =
      let (a, s) = get_asset id h.store in serve_found id a (record h { store = s })

  -- ---- deletion ----

  abbrev removed :
      String → Asset → Result StoreError (Option Asset) → Library F → Reply Unit × Library F
  removed root a (err _) lib = (failed 500, lib)
  removed root a (ok _) lib = if root == "" then (failed 204, lib) else (
    failed 204,
    record {
      host = record lib.host { files = remove_file root a.dir_key a.asset_id lib.host.files };
      sidecars = remove_asset_from_meta (dir_path root a.dir_key) a.asset_id lib.sidecars;
    },
  )

  abbrev delete_known :
      String → Result StoreError (Option Asset) → Library F → Reply Unit × Library F
  delete_known id (err _) lib = (failed 500, lib)
  delete_known id (ok none) lib = (failed 404, lib)
  delete_known id (ok (some a)) lib =
      let (root, s) = root_of_asset lib.host.blob_root id lib.host.store in
      let (r, s') = delete_asset id s in removed root a r (with_store lib s')

  -- A 204 has no body.
  pub handle_delete_asset : String → Library F → Reply Unit × Library F
  handle_delete_asset id lib =
      let (a, s) = get_asset id lib.host.store in delete_known id a (with_store lib s)
