-- ===== src/Store/Uploads/Saving.antt =====
-- What is in the tables after an upload has been entered.
use immich_go_server.Prelude.{
  ℤ, String, ◌≡◌, ◌≢◌, refl, inl, inr, false, arith, ◌==◌, eq_iff, lookup, Bool-cases, ok, [],
}
use immich_go_server.Float64.{Float64}
use immich_go_server.Model.{Asset, Replica}
use immich_go_server.Store.{Store, working, upsert}
use immich_go_server.Store.Disks.{get_disk}
use immich_go_server.Store.Replicas.{add_replica, replica_onto, replica_id}
use immich_go_server.Store.Directories.{get_directory, save_directory}
use immich_go_server.Store.Assets.{save_asset, asset_onto}
use immich_go_server.Store.Uploads.{
  save_uploaded_asset, save_uploaded_dir, upload_directory, of_other,
}

module _ (fl : Float64) where
  abbrev pub uploaded_replica : Asset → String → String → Replica
  uploaded_replica a disk_serial node_id = record {
    replica_id = replica_id a.asset_id disk_serial;
    asset_id = a.asset_id;
    disk_serial = disk_serial;
    node_id = node_id;
    checksum = a.checksum;
    status = "HEALTHY";
  }

  -- The tables that entering an upload on a disk leaves, but for the directories.
  pub record IsSaved (a : Asset) (disk_serial : String) (before after : Store fl.F) : Type 0 where
    pub asset_row : after.asset ≡ upsert a.asset_id a (asset_onto a) before.asset
    pub replica_row :
        after.replica
        ≡ upsert
            (replica_id a.asset_id disk_serial)
            (uploaded_replica a disk_serial before.node_id)
            (replica_onto (uploaded_replica a disk_serial before.node_id))
            before.replica
    pub same_disks : after.disk ≡ before.disk
    pub same_devices : after.device_asset ≡ before.device_asset
    pub same_meta : after.asset_meta ≡ before.asset_meta
    pub still_works : after.faults ≡ []

  abbrev rows_entered : Asset → String → Store fl.F → Store fl.F
  rows_entered a disk_serial s = record s {
    asset = upsert a.asset_id a (asset_onto a) s.asset;
    replica =
        upsert (replica_id a.asset_id disk_serial) (uploaded_replica a disk_serial s.node_id)
          (replica_onto (uploaded_replica a disk_serial s.node_id)) s.replica;
    faults = [];
  }

  directory_kept :
      (now : ℤ) (a : Asset) (disk_serial : String) (size : ℤ) (s t : Store fl.F)
      → IsSaved a disk_serial s t
      → (((upload_directory fl now a disk_serial size t).0 ≡ ok tt)
          × IsSaved a disk_serial s (upload_directory fl now a disk_serial size t).1)
  unfolding get_directory save_directory save_uploaded_dir get_disk
  directory_kept now a disk_serial size s t h =
      elim (Bool-cases (of_other fl t.node_id (lookup a.dir_key t.directory))) [
        | inl x ↦
            rw (h.still_works, x)
              (
                refl,
                record {
                  asset_row = h.asset_row;
                  replica_row = h.replica_row;
                  same_disks = h.same_disks;
                  same_devices = h.same_devices;
                  same_meta = h.same_meta;
                  still_works = refl;
                },
              )
        | inr y ↦
            rw (h.still_works, y)
              (
                refl,
                record {
                  asset_row = h.asset_row;
                  replica_row = h.replica_row;
                  same_disks = h.same_disks;
                  same_devices = h.same_devices;
                  same_meta = h.same_meta;
                  still_works = refl;
                },
              )
      ]

  pub save_uploaded_asset_ok :
      (now : ℤ) (a : Asset) (disk_serial : String) (size : ℤ) (s : Store fl.F)
      → disk_serial ≢ ""
      → s.faults ≡ []
      → ((save_uploaded_asset fl now a disk_serial size s).0 ≡ ok tt)
        × IsSaved a disk_serial s (save_uploaded_asset fl now a disk_serial size s).1
  unfolding save_uploaded_asset save_asset add_replica
  save_uploaded_asset_ok now a disk_serial size s named works =
      let other : (disk_serial == "") ≡ false = ground (arith, eq_iff disk_serial "") in
      rw (works, other)
        (directory_kept now a disk_serial size (working s) (rows_entered a disk_serial s) (record {
          asset_row = refl;
          replica_row = refl;
          same_disks = refl;
          same_devices = refl;
          same_meta = refl;
          still_works = refl;
        }))
