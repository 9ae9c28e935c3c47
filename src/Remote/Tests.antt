-- ===== src/Remote/Tests.antt =====
-- A disk with a file of three bytes.
use immich_go_server.Prelude.{
  ℤ, pos, ◌≡◌, refl, false, [], ◌∷◌, some, none, arith, if◌then◌else◌, ltb, ok, err, lookup,
}
use immich_go_server.Model.{Disk, tier_hot}
use immich_go_server.Host.{Host}
use immich_go_server.Api.Blob.Stored.{IsStored, up}
use immich_go_server.Remote.{RemoteSource, unexpected_status, stat_source, open_source, answered}
use immich_go_server.Remote.Source.{remote_source_lem}

abbrev disk : Disk ℤ
disk = record {
  disk_serial = "d1";
  label = "";
  tier = tier_hot;
  capacity_bytes = pos 100;
  free_bytes = pos 80;
  mounted_node_id = "n2";
  online_seconds = pos 0;
  online_score = pos 0;
  first_seen_at = pos 0;
  last_seen_at = pos 0;
  last_tick_at = pos 0;
  suspect = false;
  blob_root = "/d1";
}

abbrev host : Host ℤ
host = record {
  store = record {
    node_id = "n2";
    disk = ("d1", disk) ∷ [];
    node = [];
    replica = [];
    directory = [];
    asset = [];
    task = [];
    server_config = [];
    asset_meta = [];
    device_asset = [];
    faults = [];
  };
  files = record { root = "/d1"; dir_key = "2026/06"; asset_id = "a"; bytes = 7 ∷ 8 ∷ 9 ∷ [] } ∷ [];
  blob_root = "";
  manifests = [];
}

abbrev remote : RemoteSource
remote = record { disk_serial = "d1"; dir_key = "2026/06" }

mounted : lookup "d1" host.store.disk ≡ some disk
unfolding lookup
mounted = refl

is_stored : IsStored host "d1" "2026/06" "a" (7 ∷ 8 ∷ 9 ∷ [])
is_stored = record {
  disk = disk;
  mounted = mounted;
  rooted = λ e. cc;
  there = refl;
  disk_named = λ e. cc;
  dir_named = λ e. cc;
  clean_dir = refl;
  clean_id = refl;
  fits = ground arith;
}

remote_source_lem_example :
    ((stat_source (answered none) remote "a" (up host)).0
      ≡ (if ltb 0 3 then some (pos 3) else none))
    × ((open_source (answered none) remote "a" (pos 1) (up host)).0
        ≡ (if ltb 1 3 then ok (8 ∷ 9 ∷ []) else err (unexpected_status 416)))
remote_source_lem_example =
    remote_source_lem host remote "a" (7 ∷ 8 ∷ 9 ∷ []) is_stored none 1 (ground arith)
