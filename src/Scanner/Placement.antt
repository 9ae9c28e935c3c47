-- ===== src/Scanner/Placement.antt =====
-- Where a directory is after one of the disks of its node has been scanned.
use immich_go_server.Prelude.{
  ℤ, pos, String, ◌≡◌, refl, ap, ◌∙◌, inl, inr, true, List, [], ◌∷◌, some, arith, if◌then◌else◌,
  ltb_ℤ, add64, ◌==◌, eq_iff, lookup, lookup-insert_self, Bool-cases, ok, ◌>>◌,
}
use immich_go_server.Float64.{Float64}
use immich_go_server.Model.{Directory}
use immich_go_server.Store.{Store, upsert}
use immich_go_server.Store.Disks.{get_disk}
use immich_go_server.Store.Replicas.{add_replica, replica_onto}
use immich_go_server.Store.Directories.{get_directory, save_directory, stamped, newer}
use immich_go_server.Store.Assets.{save_asset, asset_onto}
use immich_go_server.Host.{Host, BlobFile, find_file}
use immich_go_server.Ingest.{MetaAsset}
use immich_go_server.Scanner.{
  ScanAction, stored, is_there, scanned_asset, scanned_replica, sync_assets, tier_of,
  scanned_directory, sync_directory, sync_dir,
}

module _ (fl : Float64) (today : ℤ × ℤ) (now : ℤ) (blob_root disk_serial node_id : String) where
  -- The bytes of the listed assets whose files are there.
  abbrev pub present_bytes : List BlobFile → String → ℤ → List MetaAsset → ℤ
  present_bytes files dir_key total [] = total
  present_bytes files dir_key total (a ∷ rest) =
      if is_there (find_file blob_root dir_key a.asset_id files)
      then present_bytes files dir_key (add64 total a.size_bytes) rest
      else present_bytes files dir_key total rest

  abbrev entered : String → MetaAsset → Store fl.F → Store fl.F
  entered dir_key a s =
      let asset = scanned_asset fl today now blob_root disk_serial node_id dir_key a in
      let replica = scanned_replica fl today now blob_root disk_serial node_id a in
      record s {
        asset = upsert asset.asset_id asset (asset_onto asset) s.asset;
        replica = upsert replica.replica_id replica (replica_onto replica) s.replica;
        faults = [];
      }

  enter_one :
      (dir_key : String) (a : MetaAsset) (next : ScanAction fl.F ℤ) (h : Host fl.F)
      → h.store.faults ≡ []
      → (stored (save_asset (scanned_asset fl today now blob_root disk_serial node_id dir_key a))
            >> (stored (add_replica (scanned_replica fl today now blob_root disk_serial node_id a))
                >> next))
          h
        ≡ next (record h { store = entered dir_key a h.store })
  unfolding save_asset add_replica
  enter_one dir_key a next h works = rw works refl

  sync_assets_ok :
      (dir_key : String) (total : ℤ) (listed : List MetaAsset) (h : Host fl.F)
      → h.store.faults ≡ []
      → (s : Store fl.F) × (sync_assets fl today now blob_root disk_serial node_id dir_key total
            listed h
          ≡ (ok (present_bytes h.files dir_key total listed), record h { store = s }))
        × (s.faults ≡ [])
        × (s.directory ≡ h.store.directory)
  unfolding sync_assets
  sync_assets_ok dir_key total [] h works = (h.store, refl, works, refl)
  sync_assets_ok dir_key total (a ∷ rest) h works =
      elim (Bool-cases (is_there (find_file blob_root dir_key a.asset_id h.files))) [
        | inl t ↦
            let (s, e, w, d) =
              sync_assets_ok dir_key (add64 total a.size_bytes) rest
                (record h { store = entered dir_key a h.store }) refl in
            (
              s,
              rw t (
                  enter_one dir_key a
                    (sync_assets fl today now blob_root disk_serial node_id dir_key
                      (add64 total a.size_bytes) rest)
                    h works
                  ∙ e),
              w,
              d,
            )
        | inr n ↦ rw n (sync_assets_ok dir_key total rest h works)
      ]

  abbrev scanned : String → ℤ → Store fl.F → Directory fl.F
  scanned dir_key total s =
      scanned_directory fl today now blob_root disk_serial node_id dir_key
        (tier_of fl today now blob_root disk_serial node_id (ok (lookup disk_serial s.disk))) total

  sync_directory_ok :
      (dir_key : String) (total : ℤ) (old : Directory fl.F) (h : Host fl.F)
      → h.store.faults ≡ []
      → lookup dir_key h.store.directory ≡ some old
      → old.node_id ≡ node_id
      → ltb_ℤ old.last_eval_at now ≡ true
      → ((sync_directory fl today now blob_root disk_serial node_id dir_key total h).0 ≡ ok tt)
        × (lookup dir_key
              (sync_directory fl today now blob_root disk_serial node_id dir_key total
                h).1.store.directory
            ≡ some (scanned dir_key total h.store))
  unfolding sync_directory get_directory get_disk save_directory
  sync_directory_ok dir_key total old h works found own older =
      let mine : (old.node_id == node_id) ≡ true = (eq_iff old.node_id node_id).1 own in
      let dir = scanned dir_key total h.store in
      let same : stamped now dir ≡ dir = ground arith in
      (
        rw (works, found, mine) refl,
        rw (works, found, mine)
            (lookup-insert_self dir_key (newer (stamped now dir) old) h.store.directory
              ∙ ap some (ap (λ d. newer d old) same ∙ rw older refl)),
      )

  -- A scan of a disk of the node, while the database works, puts every directory of the node for which the
  -- disk has a sidecar with assets onto that disk, wherever the directory is, with the bytes of the listed
  -- assets that the disk still has, if the record of the directory is older than the scan.
  pub sync_dir_placement :
      (dir_key : String) (a : MetaAsset) (rest : List MetaAsset) (old : Directory fl.F)
      (h : Host fl.F)
      → h.store.faults ≡ []
      → lookup dir_key h.store.directory ≡ some old
      → old.node_id ≡ node_id
      → ltb_ℤ old.last_eval_at now ≡ true
      → ((sync_dir fl today now blob_root disk_serial node_id dir_key (some (a ∷ rest)) h).0
          ≡ ok tt)
        × ((new : Directory fl.F) × (lookup dir_key
                (sync_dir fl today now blob_root disk_serial node_id dir_key
                  (some (a ∷ rest))
                  h).1.store.directory
              ≡ some new)
            × (new.disk_serial ≡ disk_serial)
            × (new.total_bytes ≡ present_bytes h.files dir_key (pos 0) (a ∷ rest)))
  unfolding sync_dir
  sync_dir_placement dir_key a rest old h works found own older =
      let (s, e, w, d) = sync_assets_ok dir_key (pos 0) (a ∷ rest) h works in
      let total = present_bytes h.files dir_key (pos 0) (a ∷ rest) in
      let (good, there) =
        sync_directory_ok dir_key total old (record h { store = s }) w
          (ap (lookup dir_key) d ∙ found) own older in
      (rw e good, (scanned dir_key total s, rw e there, refl, refl))
