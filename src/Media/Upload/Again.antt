-- ===== src/Media/Upload/Again.antt =====
-- A second upload under the id that a device has given the first.
use immich_go_server.Prelude.{
  ℕ, ℤ, pos, String, ◌≡◌, ◌≢◌, refl, ap, ◌∙◌, true, not, List, [], ◌∷◌, ◌++◌, none, some,
  if◌then◌else◌, ◌==◌, eq_iff, Assoc, lookup, insert, lookup-insert_self, retain, length,
}
use immich_go_server.Float64.{Float64}
use immich_go_server.Store.{Store, DeviceAsset}
use immich_go_server.Store.Assets.{
  lookup_device_assets, save_asset_meta, save_device_asset, is_mapping, mappings,
}
use immich_go_server.Store.Uploads.Saving.{save_uploaded_asset_ok}
use immich_go_server.Media.{Formats, Faults, UploadRequest, Library, answer}
use immich_go_server.Media.Upload.{has_device, duplicate_of, asset_of, enter_upload, upload_asset}
use immich_go_server.Media.Upload.Served.{IsTarget, no_faults, upload_written, enter_upload_ok}

mapped_last :
    (device_id : String) (r : DeviceAsset) (rows : List DeviceAsset) (out : Assoc String)
    → r.device_id ≡ device_id
    → lookup r.device_asset_id (mappings device_id (rows ++ r ∷ []) out) ≡ some r.asset_id
mapped_last device_id r [] out e =
    rw ((eq_iff r.device_id device_id).1 e) (lookup-insert_self r.device_asset_id r.asset_id out)
mapped_last device_id r (q ∷ rows) out e =
    mapped_last device_id r rows
      (if q.device_id == device_id then insert q.device_asset_id q.asset_id out else out) e

module _ (fl : Float64) (formats : Formats) (node_id : String) (now : ℤ) where
  abbrev mapping : UploadRequest → List ℕ → DeviceAsset
  mapping u bytes = record {
    device_id = u.device_id;
    device_asset_id = u.device_asset_id;
    asset_id = formats.checksum bytes;
  }

  devices_entered :
      (u : UploadRequest) (bytes : List ℕ) (serial : String) (s : Store fl.F)
      → serial ≢ ""
      → s.faults ≡ []
      → has_device u ≡ true
      → (enter_upload fl formats node_id now u bytes serial s).1.device_asset
        ≡ retain (λ r. not (is_mapping u.device_id u.device_asset_id r)) s.device_asset
          ++ mapping u bytes ∷ []
  unfolding save_asset_meta save_device_asset
  devices_entered u bytes serial s named works t =
      let (good, saved) =
        save_uploaded_asset_ok fl now (asset_of fl formats node_id now u bytes) serial
          (pos (length bytes)) s named works in
      rw (good, saved.still_works, t, saved.same_devices) refl

  known_after :
      (u : UploadRequest) (bytes : List ℕ) (rows : List DeviceAsset) (s : Store fl.F)
      → s.faults ≡ []
      → has_device u ≡ true
      → s.device_asset ≡ rows ++ mapping u bytes ∷ []
      → duplicate_of u s ≡ (some (formats.checksum bytes), s)
  unfolding lookup_device_assets
  known_after u bytes rows s works t e =
      rw (t, works, e)
        (ap (λ o. (o, record s { faults = []; device_asset = rows ++ mapping u bytes ∷ [] }))
          (mapped_last u.device_id (mapping u bytes) rows [] refl))

  same_device :
      (u again : UploadRequest) (s : Store fl.F)
      → again.device_id ≡ u.device_id
      → again.device_asset_id ≡ u.device_asset_id
      → duplicate_of again s ≡ duplicate_of u s
  same_device u again s e f = rw (e, f) refl

  known_reply :
      (again : UploadRequest) (other : List ℕ) (id : String) (faults : Faults) (lib : Library fl.F)
      → again.asset_data ≡ some other
      → duplicate_of again lib.host.store ≡ (some id, lib.host.store)
      → upload_asset fl formats node_id now faults again lib ≡ (answer 200 (id, true), lib)
  unfolding upload_asset
  known_reply again other id faults lib given known = rw (given, known) refl

  -- After an upload that came with ids of a device, another upload under the same ids, with whatever file, is
  -- answered with 200 and the id of the first, and changes nothing, whatever calls of the file system would
  -- fail. (The first is one of new ids to a node with a disk for it, the database and the disks working.)
  pub upload_asset_again :
      (u again : UploadRequest) (bytes other : List ℕ) (serial root : String) (lib : Library fl.F)
      (faults : Faults)
      → u.asset_data ≡ some bytes
      → again.asset_data ≡ some other
      → lib.host.store.faults ≡ []
      → (duplicate_of u lib.host.store).0 ≡ none
      → has_device u ≡ true
      → again.device_id ≡ u.device_id
      → again.device_asset_id ≡ u.device_asset_id
      → IsTarget fl formats node_id now serial root lib.host.store
      → upload_asset fl formats node_id now faults again
          (upload_asset fl formats node_id now no_faults u lib).1
        ≡ (
          answer 200 (formats.checksum bytes, true),
          (upload_asset fl formats node_id now no_faults u lib).1,
        )
  upload_asset_again u again bytes other serial root lib faults given given' works fresh device same
        same' target =
      let first = upload_asset fl formats node_id now no_faults u lib in
      let step =
        upload_written fl formats node_id now u bytes serial root lib given works fresh target in
      let (good, entered) =
        enter_upload_ok fl formats node_id now u bytes serial lib.host.store target.named works in
      let rows = devices_entered u bytes serial lib.host.store target.named works device in
      let still : first.1.host.store.faults ≡ [] =
        ap (λ r. r.1.host.store.faults) step ∙ entered.still_works in
      let listed = ap (λ r. r.1.host.store.device_asset) step ∙ rows in
      let known =
        same_device u again first.1.host.store same same'
        ∙ known_after u bytes _ first.1.host.store still device listed in
      known_reply again other (formats.checksum bytes) faults first.1 given' known
