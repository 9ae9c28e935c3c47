-- ===== src/Scanner/Tests.antt =====
-- A directory that has been moved from d1 to d2, whose sidecar on d1 lists one asset with a file and one without.
use immich_go_server.Prelude.{ℤ, pos, String, ◌≡◌, refl, [], ◌∷◌, some, lookup, ok, insert}
use immich_go_server.Float64.{hundredths}
use immich_go_server.Model.{Directory, Replica, tier_warm}
use immich_go_server.Store.Directories.{save_directory, get_directory}
use immich_go_server.Store.Disks.{get_disk}
use immich_go_server.Store.Assets.{save_asset}
use immich_go_server.Store.Replicas.{add_replica}
use immich_go_server.Host.{Host}
use immich_go_server.Worker.Tests.{world}
use immich_go_server.Ingest.{MetaAsset}
use immich_go_server.Scanner.{sync_assets, sync_directory, sync_dir}
use immich_go_server.Scanner.Placement.{present_bytes, sync_dir_placement}
use immich_go_server.Scanner.Replicas.{IsBacked, sync_dir-IsBacked}

abbrev old : Directory ℤ
old = record {
  dir_key = "2026/06";
  node_id = "n1";
  disk_serial = "d2";
  tier = tier_warm;
  temperature = pos 0;
  total_bytes = pos 8;
  access_score = pos 0;
  last_eval_at = pos 500;
}

abbrev host : Host ℤ
host = record world.host {
  store = record world.host.store { directory = ("2026/06", old) ∷ []; replica = [] };
}

abbrev meta : String → MetaAsset
meta id = record {
  asset_id = id;
  checksum = id;
  size_bytes = pos 3;
  original_path = "p.jpg";
  captured_at = "";
  kind = "photo";
}

sync_dir_placement_example :
    ((sync_dir hundredths
        (pos 2026, pos 7)
        (pos 600)
        "/d1"
        "d1"
        "n1"
        "2026/06"
        (some (meta "a" ∷ meta "b" ∷ []))
        host).0
      ≡ ok tt)
    × ((new : Directory ℤ) × (lookup "2026/06"
            (sync_dir hundredths
              (pos 2026, pos 7)
              (pos 600)
              "/d1"
              "d1"
              "n1"
              "2026/06"
              (some (meta "a" ∷ meta "b" ∷ []))
              host).1.store.directory
          ≡ some new)
        × (new.disk_serial ≡ "d1")
        × (new.total_bytes
            ≡ present_bytes hundredths
                (pos 2026, pos 7)
                (pos 600)
                "/d1"
                "d1"
                "n1"
                host.files
                "2026/06"
                (pos 0)
                (meta "a" ∷ meta "b" ∷ [])))
unfolding lookup
sync_dir_placement_example =
    sync_dir_placement hundredths (pos 2026, pos 7) (pos 600) "/d1" "d1" "n1" "2026/06" (meta "a")
      (meta "b" ∷ []) old host refl refl refl refl

abbrev new_replica : Replica
new_replica = record {
  replica_id = "a@d1";
  asset_id = "a";
  disk_serial = "d1";
  node_id = "n1";
  checksum = "a";
  status = "HEALTHY";
}

entered :
    lookup "a@d1"
      (sync_dir hundredths
        (pos 2026, pos 7)
        (pos 600)
        "/d1"
        "d1"
        "n1"
        "2026/06"
        (some (meta "a" ∷ meta "b" ∷ []))
        host).1.store.replica
    ≡ some new_replica
unfolding sync_dir sync_assets sync_directory save_asset add_replica get_directory get_disk
    save_directory lookup insert
entered = refl

sync_dir-IsBacked_example :
    IsBacked hundredths
      (pos 2026, pos 7)
      (pos 600)
      "/d1"
      "d1"
      "n1"
      "2026/06"
      (meta "a" ∷ meta "b" ∷ [])
      host
      "a@d1"
sync_dir-IsBacked_example =
    sync_dir-IsBacked hundredths (pos 2026, pos 7) (pos 600) "/d1" "d1" "n1" "2026/06"
      (meta "a" ∷ meta "b" ∷ []) host "a@d1" new_replica entered
