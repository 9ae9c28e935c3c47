-- ===== src/Scanner.antt =====
-- internal/scanner/scanner.go: the files of a disk, as the sidecars beside them list them, entered into the
-- database. A sidecar that cannot be read is `none`; `now` and `today` are the time of the scan.
pub mod Placement
pub mod Replicas
pub mod Tests
use immich_go_server.Prelude.{
  ℕ, ℤ, pos, String, Bool, true, false, not, ◌&&◌, List, [], ◌∷◌, Option, none, some, if◌then◌else◌,
  add64, ◌==◌, Assoc, lookup, Result, ok, err, Action, pure, raise, ◌>>=◌, ◌>>◌,
}
use immich_go_server.Float64.{Float64}
use immich_go_server.Model.{Asset, Replica, Directory, Disk, Tier, tier_warm}
use immich_go_server.Store.{Store, StoreError, StoreAction}
use immich_go_server.Store.Disks.{get_disk}
use immich_go_server.Store.Replicas.{add_replica, replica_id}
use immich_go_server.Store.Directories.{get_directory, save_directory}
use immich_go_server.Store.Assets.{save_asset}
use immich_go_server.Host.{Host, find_file}
use immich_go_server.Eval.{evaluate}
use immich_go_server.Ingest.{MetaAsset}

pub data ScanError : Type 0 where
  store_failed : StoreError → ScanError
  bad_sidecar : ScanError

abbrev pub ScanAction : Type 0 → Type 0 → Type 0
ScanAction F A = Action ScanError (Host F) A

module _ {F : Type 0} {A : Type 0} where
  abbrev pub kept : Host F → Result StoreError A × Store F → Result ScanError A × Host F
  kept h (ok a, s) = (ok a, record h { store = s })
  kept h (err e, s) = (err (store_failed e), record h { store = s })

  abbrev pub stored : StoreAction F A → ScanAction F A
  stored act h = kept h (act h.store)

abbrev pub is_there : Option (List ℕ) → Bool
is_there none = false
is_there (some _) = true

module _ (fl : Float64) (today : ℤ × ℤ) (now : ℤ) (blob_root disk_serial node_id : String) where
  abbrev pub scanned_asset : String → MetaAsset → Asset
  scanned_asset dir_key a = record {
    asset_id = a.asset_id;
    size_bytes = a.size_bytes;
    checksum = a.checksum;
    dir_key = dir_key;
    original_path = a.original_path;
  }

  abbrev pub scanned_replica : MetaAsset → Replica
  scanned_replica a = record {
    replica_id = replica_id a.asset_id disk_serial;
    asset_id = a.asset_id;
    disk_serial = disk_serial;
    node_id = node_id;
    checksum = a.checksum;
    status = "HEALTHY";
  }

  -- The loop over the assets; `total` is the variable of the code.
  unfoldable pub sync_assets : String → ℤ → List MetaAsset → ScanAction fl.F ℤ
  sync_assets dir_key total [] h = (ok total, h)
  sync_assets dir_key total (a ∷ rest) h =
      if is_there (find_file blob_root dir_key a.asset_id h.files)
      then (stored (save_asset (scanned_asset dir_key a))
            >> (stored (add_replica (scanned_replica a))
                >> sync_assets dir_key (add64 total a.size_bytes) rest))
          h
      else sync_assets dir_key total rest h

  abbrev pub of_other : Result StoreError (Option (Directory fl.F)) → Bool
  of_other (err _) = false
  of_other (ok none) = false
  of_other (ok (some d)) = not (d.node_id == node_id)

  abbrev pub tier_of : Result StoreError (Option (Disk fl.F)) → Tier
  tier_of (err _) = tier_warm
  tier_of (ok none) = tier_warm
  tier_of (ok (some d)) = d.tier

  abbrev pub scanned_directory : String → Tier → ℤ → Directory fl.F
  scanned_directory dir_key tier total =
      let (temperature, access_score) = evaluate fl today dir_key total in
      record {
        dir_key = dir_key;
        node_id = node_id;
        disk_serial = disk_serial;
        tier = tier;
        temperature = temperature;
        access_score = access_score;
        total_bytes = total;
        last_eval_at = now;
      }

  unfoldable pub sync_directory : String → ℤ → ScanAction fl.F Unit
  sync_directory dir_key total h =
      let (old, s) = get_directory dir_key h.store in
      if of_other old
      then (ok tt, record h { store = s })
      else (let (disk, s') = get_disk disk_serial s in
          stored (save_directory now (scanned_directory dir_key (tier_of disk) total))
            (record h { store = s' }))

  unfoldable pub sync_dir : String → Option (List MetaAsset) → ScanAction fl.F Unit
  sync_dir dir_key none = raise bad_sidecar
  sync_dir dir_key (some []) = pure tt
  sync_dir dir_key (some (a ∷ rest)) =
      sync_assets dir_key (pos 0) (a ∷ rest) >>= sync_directory dir_key

  -- `sidecars` has the directories in which the walk finds one.
  pub scan_repository : Assoc (Option (List MetaAsset)) → ScanAction fl.F Unit
  scan_repository [] = pure tt
  scan_repository ((dir_key, sidecar) ∷ rest) = sync_dir dir_key sidecar >> scan_repository rest
