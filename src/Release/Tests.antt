-- ===== src/Release/Tests.antt =====
-- Two assets of one directory: the first has two replicas beside the source's, the second has one.
use mathlib.Core.List.{Memᴰ}
use immich_go_server.Prelude.{
  ℤ, pos, String, ◌≡◌, ◌↔◌, refl, Bool, false, List, [], ◌∷◌, some, ok, retain, contains,
}
use immich_go_server.Model.{Asset, Replica}
use immich_go_server.Store.{Store, working, rows_of}
use immich_go_server.Store.Replicas.{is_at}
use immich_go_server.Host.{Host}
use immich_go_server.Release.{ReleaseRequest, to_release, release_local, handle_release_source}
use immich_go_server.Release.Local.{IsKept, release_local-IsKept}
use immich_go_server.Release.Remote.Rows.{IsReleased, handle_release_source_rows}
use immich_go_server.Release.Remote.{
  in_dir, handle_release_source_lem, handle_release_source_none_safe,
}

abbrev asset : String → Asset
asset id = record {
  asset_id = id;
  size_bytes = pos 3;
  checksum = "sum";
  dir_key = "2026/06";
  original_path = "p.jpg";
}

abbrev replica : String → String → String → Replica
replica id asset_id disk = record {
  replica_id = id;
  asset_id = asset_id;
  disk_serial = disk;
  node_id = "n1";
  checksum = "sum";
  status = "HEALTHY";
}

abbrev store : Store ℤ
store = record {
  node_id = "n1";
  disk = [];
  node = [];
  replica =
      ("a@d1", replica "a@d1" "a" "d1")
      ∷ ("a@d2", replica "a@d2" "a" "d2")
      ∷ ("a@d3", replica "a@d3" "a" "d3")
      ∷ ("b@d1", replica "b@d1" "b" "d1")
      ∷ [];
  directory = [];
  asset = ("a", asset "a") ∷ ("b", asset "b") ∷ [];
  task = [];
  server_config = [];
  asset_meta = [];
  device_asset = [];
  faults = [];
}

abbrev host : Host ℤ
host = record { store = working store; files = []; blob_root = "/blobs"; manifests = [] }

release_local-IsKept_example :
    ((release_local (pos 2) "d1" "d2" (asset "a" ∷ asset "b" ∷ []) host).0 ≡ ok tt)
    × IsKept (pos 2) "a" (rows_of store.replica) (
        rows_of (release_local (pos 2) "d1" "d2" (asset "a" ∷ asset "b" ∷ []) host).1.store.replica)
release_local-IsKept_example =
    release_local-IsKept (pos 2) "d1" "d2" "a" (asset "a" ∷ asset "b" ∷ []) host store refl

abbrev request : List String → ReleaseRequest
request ids = record {
  dir_key = "2026/06";
  src_disk = "d1";
  dst_disk = "d9";
  release_node = "n1";
  release_assets = ids;
}

handle_release_source_rows_example :
    ((handle_release_source "n1" "POST" (some (request ("a" ∷ []))) host).0 ≡ 200)
    × ((left : Replica → Bool) × (rows_of
            (handle_release_source "n1" "POST" (some (request ("a" ∷ []))) host).1.store.replica
          ≡ retain left (rows_of store.replica))
        × ((r : Replica) → (left r ≡ false) ↔ IsReleased store (request ("a" ∷ [])) r))
handle_release_source_rows_example =
    handle_release_source_rows store (request ("a" ∷ [])) host refl refl

b_is_there : Memᴰ (asset "b") (in_dir "2026/06" store)
b_is_there = Memᴰ.tail (Memᴰ.head refl)

abbrev unsafe : List (Asset × Bool)
unsafe = (asset "a", false) ∷ (asset "b", false) ∷ []

a_is_left : Memᴰ (replica "a@d2" "a" "d2") (
    rows_of
      (handle_release_source "n1" "POST" (some (request (to_release unsafe))) host).1.store.replica)
unfolding contains
a_is_left =
    rw (handle_release_source_lem host store (request (to_release unsafe)) refl refl).1
      (Memᴰ.head refl)

handle_release_source_none_safe_example : is_at "b" "d1" (replica "a@d2" "a" "d2") ≡ false
handle_release_source_none_safe_example =
    handle_release_source_none_safe host store (request (to_release unsafe)) unsafe (asset "b")
      (replica "a@d2" "a" "d2") refl refl refl (refl, (refl, tt)) b_is_there a_is_left
