-- ===== src/Media/Upload.antt =====
-- internal/clusterapi/clusterapi.go: `uploadAsset`.
pub mod Served
pub mod Again
use immich_go_server.Prelude.{
  ℕ, ℤ, pos, String, Bool, true, false, not, ◌&&◌, ◌||◌, List, [], ◌∷◌, map, Option, none, some,
  if◌then◌else◌, ◌==◌, Assoc, lookup, take, length, Result, ok, err, Action, pure, raise, ◌>>=◌,
  ◌>>◌,
}
use text.Mathlib.Text.{starts_with}
use immich_go_server.Float64.{Float64}
use immich_go_server.Model.{Asset, AssetMeta, Replica, Disk}
use immich_go_server.Store.{Store, StoreError, StoreAction}
use immich_go_server.Store.Disks.{list_mounted_disks, disk_root}
use immich_go_server.Store.Replicas.{list_replicas}
use immich_go_server.Store.Assets.{
  list_assets, get_asset, lookup_device_assets, save_asset_meta, get_asset_meta, save_device_asset,
}
use immich_go_server.Store.Uploads.{save_uploaded_asset, delete_asset}
use immich_go_server.Host.{Host, BlobFile, find_file, remove_file, dir_path}
use immich_go_server.Ingest.{MetaAsset, Sidecars, flush_meta, remove_asset_from_meta}
use immich_go_server.Media.{
  Formats, Faults, UploadRequest, Reply, UploadReply, failed, answer, Library, with_store, or_root,
}

abbrev known_id : String → Result StoreError (Assoc String) → Option String
known_id device_asset_id (err _) = none
known_id device_asset_id (ok known) = lookup device_asset_id known

abbrev pub has_device : UploadRequest → Bool
has_device u = not (u.device_id == "") && not (u.device_asset_id == "")

abbrev pub put_file : String → String → String → List ℕ → List BlobFile → List BlobFile
put_file root dir_key asset_id bytes files =
    record { root = root; dir_key = dir_key; asset_id = asset_id; bytes = bytes }
    ∷ remove_file root dir_key asset_id files

module _ {F : Type 0} where
  abbrev pub duplicate_of : UploadRequest → Store F → Option String × Store F
  duplicate_of u s =
      if has_device u
      then (let (known, s') = lookup_device_assets u.device_id (u.device_asset_id ∷ []) s in
          (known_id u.device_asset_id known, s'))
      else (none, s)

  abbrev target_on :
      String → Result StoreError (List (Disk F)) → Store F → (String × String) × Store F
  target_on blob_root (err _) s = (("", blob_root), s)
  target_on blob_root (ok []) s = (("", blob_root), s)
  target_on blob_root (ok (d ∷ _)) s =
      let (root, s') = or_root blob_root (disk_root d.disk_serial s) in ((d.disk_serial, root), s')

  -- The disk of the node with the most room and its root, or no disk and the root of the node.
  abbrev pub choose_target : String → String → Store F → (String × String) × Store F
  choose_target node_id blob_root s =
      let (disks, s') = list_mounted_disks node_id s in target_on blob_root disks s'

abbrev pub mime_or_default : String → String
mime_or_default mime = if mime == "" then "application/octet-stream" else mime

abbrev pub kind_of : String → String
kind_of mime =
    if starts_with mime "image/"
    then "photo"
    else if starts_with mime "video/"
    then "video"
    else "other"

abbrev pub type_of : String → String
type_of mime =
    if starts_with mime "image/"
    then "IMAGE"
    else if starts_with mime "video/"
    then "VIDEO"
    else "IMAGE"

module _ (fl : Float64) (formats : Formats) (node_id : String) (now : ℤ) where
  abbrev pub asset_of : UploadRequest → List ℕ → Asset
  asset_of u bytes = record {
    asset_id = formats.checksum bytes;
    size_bytes = pos (length bytes);
    checksum = formats.checksum bytes;
    dir_key = formats.dir_key_of u.file_created_at u.file_modified_at;
    original_path = u.file_name;
  }

  abbrev pub meta_of : UploadRequest → List ℕ → AssetMeta
  meta_of u bytes =
      let mime = mime_or_default (formats.mime_of u.file_name) in
      record {
        asset_id = formats.checksum bytes;
        device_asset_id = u.device_asset_id;
        device_id = u.device_id;
        file_created_at = u.file_created_at;
        file_modified_at = u.file_modified_at;
        is_favorite = u.is_favorite;
        duration = u.duration;
        kind = type_of mime;
        mime_type = mime;
        original_file_name = u.file_name;
        width = pos 0;
        height = pos 0;
      }

  abbrev sidecar_entry : UploadRequest → List ℕ → MetaAsset
  sidecar_entry u bytes = record {
    asset_id = formats.checksum bytes;
    checksum = formats.checksum bytes;
    size_bytes = pos (length bytes);
    original_path = u.file_name;
    captured_at = formats.captured_at u.file_created_at u.file_modified_at;
    kind = kind_of (mime_or_default (formats.mime_of u.file_name));
  }

  -- A mapping that cannot be written is not reported.
  abbrev mapped : UploadRequest → String → StoreAction fl.F Unit
  mapped u id s =
      if has_device u
      then (ok tt, (save_device_asset u.device_id u.device_asset_id id s).1)
      else (ok tt, s)

  abbrev pub enter_upload : UploadRequest → List ℕ → String → StoreAction fl.F Unit
  enter_upload u bytes disk_serial =
      save_uploaded_asset fl now (asset_of u bytes) disk_serial (pos (length bytes))
      >> (save_asset_meta (meta_of u bytes) >> mapped u (formats.checksum bytes))

  abbrev uploaded : String → Result StoreError Unit → UploadReply
  uploaded id (err _) = failed 500
  uploaded id (ok _) = answer 201 (id, false)

  abbrev pub written :
      UploadRequest → List ℕ → String → String → Library fl.F → UploadReply × Library fl.F
  written u bytes disk_serial root lib =
      let asset = asset_of u bytes in
      let (r, s) = enter_upload u bytes disk_serial lib.host.store in
      (
        uploaded asset.asset_id r,
        record {
          host = record lib.host { store = s };
          sidecars =
              flush_meta (dir_path root asset.dir_key) (sidecar_entry u bytes ∷ []) lib.sidecars;
        },
      )

  abbrev pub with_file : UploadRequest → List ℕ → String → Library fl.F → Library fl.F
  with_file u bytes root lib = record lib {
    host = record lib.host {
      files =
          put_file root (asset_of u bytes).dir_key (formats.checksum bytes) bytes lib.host.files;
    };
  }

  abbrev write_upload :
      Faults
      → UploadRequest
      → List ℕ
      → String
      → String
      → Option ℕ
      → Library fl.F
      → UploadReply × Library fl.F
  write_upload faults u bytes disk_serial root (some n) lib = (
    failed 500,
    record lib {
      host = record lib.host {
        files =
            put_file root (asset_of u bytes).dir_key (formats.checksum bytes) (take n bytes)
              lib.host.files;
      };
    },
  )
  write_upload faults u bytes disk_serial root none lib =
      if faults.meta_fails
      then (failed 500, with_file u bytes root lib)
      else written u bytes disk_serial root (with_file u bytes root lib)

  abbrev place_upload : Faults → UploadRequest → List ℕ → Library fl.F → UploadReply × Library fl.F
  place_upload faults u bytes lib =
      let ((disk_serial, root), s) = choose_target node_id lib.host.blob_root lib.host.store in
      let lib' = with_store lib s in
      if root == ""
      then (failed 500, lib')
      else if faults.mkdir_fails
      then (failed 500, lib')
      else write_upload faults u bytes disk_serial root faults.write_fails lib'

  abbrev new_upload :
      Faults → UploadRequest → List ℕ → Option String → Library fl.F → UploadReply × Library fl.F
  new_upload faults u bytes (some id) lib = (answer 200 (id, true), lib)
  new_upload faults u bytes none lib = place_upload faults u bytes lib

  abbrev read_upload :
      Faults → UploadRequest → Option (List ℕ) → Library fl.F → UploadReply × Library fl.F
  read_upload faults u none lib = (failed 400, lib)
  read_upload faults u (some bytes) lib =
      let (known, s) = duplicate_of u lib.host.store in
      new_upload faults u bytes known (with_store lib s)

  unfoldable pub upload_asset : Faults → UploadRequest → Library fl.F → UploadReply × Library fl.F
  upload_asset faults u lib = read_upload faults u u.asset_data lib
