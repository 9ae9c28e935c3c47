-- ===== src/Store/Uploads.antt =====
-- internal/store/store.go: what an upload writes, and what the deletion of an asset removes. `now` is
-- the result of `time.Now().Unix()`.
pub mod Deletion
pub mod Saving
use immich_go_server.Prelude.{
  ℤ, pos, String, Bool, true, false, not, ◌&&◌, List, [], ◌∷◌, Option, none, some, if◌then◌else◌,
  add64, eqb, length, ◌==◌, concat, Assoc, lookup, erase, retain, Result, ok, err, Action, pure,
  raise, ◌>>=◌, ◌>>◌,
}
use immich_go_server.Float64.{Float64}
use immich_go_server.Model.{Asset, Disk, Directory, Tier, tier_warm}
use immich_go_server.Store.{
  Store, StoreError, StoreAction, exec, query, rows_of, delete_where, faulty, called, engine_failed,
}
use immich_go_server.Store.Disks.{get_disk}
use immich_go_server.Store.Replicas.{add_replica, replica_id}
use immich_go_server.Store.Directories.{get_directory, save_directory, is_own}
use immich_go_server.Store.Assets.{save_asset, get_asset, delete_device_assets}

module _ {F : Type 0} where
  -- A row of the directory that is there, as far as it can be read.
  abbrev existing : Result StoreError (Option (Directory F)) → Option (Directory F)
  existing (err _) = none
  existing (ok d) = d

  abbrev tier_of : Result StoreError (Option (Disk F)) → Tier
  tier_of (err _) = tier_warm
  tier_of (ok none) = tier_warm
  tier_of (ok (some d)) = d.tier

module _ (fl : Float64) where
  abbrev uploaded_dir : String → String → String → Tier → ℤ → ℤ → Directory fl.F
  uploaded_dir dir_key node_id disk_serial tier total now = record {
    dir_key = dir_key;
    node_id = node_id;
    disk_serial = disk_serial;
    tier = tier;
    temperature = fl.of_int (pos 0);
    total_bytes = total;
    access_score = fl.of_int (pos 0);
    last_eval_at = now;
  }

  abbrev total_with : Option (Directory fl.F) → ℤ → ℤ
  total_with none size_bytes = size_bytes
  total_with (some e) size_bytes = add64 e.total_bytes size_bytes

  -- The directory's row, unless it is another node's.
  pub save_uploaded_dir : ℤ → Asset → String → ℤ → Option (Directory fl.F) → StoreAction fl.F Unit
  save_uploaded_dir now a disk_serial size_bytes old s =
      let (disk, s') = get_disk disk_serial s in
      save_directory now
        (uploaded_dir a.dir_key s.node_id disk_serial (tier_of disk) (total_with old size_bytes)
          now)
        s'

  abbrev of_other : String → Option (Directory fl.F) → Bool
  of_other node_id none = false
  of_other node_id (some e) = not (e.node_id == node_id)

  abbrev upload_directory : ℤ → Asset → String → ℤ → StoreAction fl.F Unit
  upload_directory now a disk_serial size_bytes s =
      let (r, s') = get_directory a.dir_key s in
      if of_other s.node_id (existing r)
      then (ok tt, s')
      else save_uploaded_dir now a disk_serial size_bytes (existing r) s'

  pub save_uploaded_asset : ℤ → Asset → String → ℤ → StoreAction fl.F Unit
  save_uploaded_asset now a disk_serial size_bytes = save_asset a >> (λ s.
      if disk_serial == ""
      then (ok tt, s)
      else (add_replica (record {
        replica_id = replica_id a.asset_id disk_serial;
        asset_id = a.asset_id;
        disk_serial = disk_serial;
        node_id = s.node_id;
        checksum = a.checksum;
        status = "HEALTHY";
      })
            >> upload_directory now a disk_serial size_bytes)
          s)

module _ {F : Type 0} where
  abbrev assets_in : String → Store F → List Asset
  assets_in dir_key s = retain (λ a. a.dir_key == dir_key) (rows_of s.asset)

  abbrev clear_if_empty : String → Result StoreError Bool → Store F → Store F
  clear_if_empty dir_key (err _) s = s
  clear_if_empty dir_key (ok empty) s =
      if empty
      then (exec (λ t. record t { directory = delete_where (is_own dir_key t.node_id) t.directory })
          s).1
      else s

  -- A directory without assets is forgotten if it is the node's own. What fails here is ignored.
  pub clear_directory : String → StoreAction F Unit
  clear_directory dir_key s =
      let (empty, s') = query (λ t. eqb (length (assets_in dir_key t)) 0) s in
      (ok tt, clear_if_empty dir_key empty s')

  abbrev delete_found : String → Option Asset → StoreAction F (Option Asset)
  delete_found asset_id none = pure none
  delete_found asset_id (some a) =
      exec (λ s. record s { asset = erase asset_id s.asset })
      >> (exec (λ s. record s { replica = delete_where (λ r. r.asset_id == asset_id) s.replica })
          >> (delete_device_assets asset_id
              >> (exec (λ s. record s { asset_meta = erase asset_id s.asset_meta })
                  >> (clear_directory a.dir_key >> pure (some a)))))

  pub delete_asset : String → StoreAction F (Option Asset)
  delete_asset asset_id = get_asset asset_id >>= delete_found asset_id
