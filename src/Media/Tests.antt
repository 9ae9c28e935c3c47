-- ===== src/Media/Tests.antt =====
-- An upload of three bytes to a node with two disks.
use immich_go_server.Prelude.{ℤ, pos, ◌≡◌, refl, true, false, [], ◌∷◌, none, some, lookup}
use immich_go_server.Float64.{hundredths}
use immich_go_server.Store.Disks.{list_mounted_disks, disk_root, get_disk}
use immich_go_server.Store.Assets.{lookup_device_assets}
use immich_go_server.Worker.Tests.{world, disk}
use immich_go_server.Media.{Formats, Faults, UploadRequest, Library, answer, serve_asset_bytes}
use immich_go_server.Media.Upload.{duplicate_of, upload_asset}
use immich_go_server.Media.Upload.Served.{
  IsTarget, IsNew, no_faults, upload_asset-serve_asset_bytes,
}
use immich_go_server.Media.Upload.Again.{upload_asset_again}

abbrev formats : Formats
formats = record {
  checksum = λ bytes. "sum";
  dir_key_of = λ created modified. "2026/07";
  captured_at = λ created modified. created;
  mime_of = λ name. "image/jpeg";
}

abbrev upload : UploadRequest
upload = record {
  device_asset_id = "IMG_1";
  device_id = "phone";
  file_created_at = "";
  file_modified_at = "";
  is_favorite = false;
  duration = "";
  file_name = "IMG_1.jpg";
  asset_data = some (1 ∷ 2 ∷ 3 ∷ []);
}

abbrev lib : Library ℤ
lib = record { host = world.host; sidecars = [] }

target : IsTarget hundredths formats "n1" (pos 9) "d1" "/d1" lib.host.store
unfolding list_mounted_disks disk_root get_disk lookup
target = record {
  disk = disk "d1" "/d1";
  others = disk "d2" "/d2" ∷ [];
  most_room = refl;
  is_serial = refl;
  rooted = refl;
  named = λ e. cc;
  root_named = λ e. cc;
}

unknown : (duplicate_of upload lib.host.store).0 ≡ none
unfolding lookup_device_assets lookup
unknown = refl

is_new : IsNew hundredths formats "n1" (pos 9) "sum" "d1" lib.host.store
unfolding lookup
is_new = record { no_row = refl; no_replica = refl; no_replicas = refl }

upload_asset-serve_asset_bytes_example :
    ((upload_asset hundredths formats "n1" (pos 9) no_faults upload lib).0
      ≡ answer 201 ("sum", false))
    × ((serve_asset_bytes "sum"
          (upload_asset hundredths formats "n1" (pos 9) no_faults upload lib).1.host).0
        ≡ answer 200 (1 ∷ 2 ∷ 3 ∷ []))
upload_asset-serve_asset_bytes_example =
    upload_asset-serve_asset_bytes hundredths formats "n1" (pos 9) upload (1 ∷ 2 ∷ 3 ∷ []) "d1"
      "/d1" lib refl refl unknown is_new target

abbrev broken : Faults
broken = record { mkdir_fails = true; write_fails = some 1; meta_fails = true }

upload_asset_again_example :
    upload_asset hundredths formats "n1"
      (pos 9)
      broken
      upload
      (upload_asset hundredths formats "n1" (pos 9) no_faults upload lib).1
    ≡ (
      answer 200 ("sum", true),
      (upload_asset hundredths formats "n1" (pos 9) no_faults upload lib).1,
    )
upload_asset_again_example =
    upload_asset_again hundredths formats "n1" (pos 9) upload upload (1 ∷ 2 ∷ 3 ∷ [])
      (1 ∷ 2 ∷ 3 ∷ []) "d1" "/d1" lib broken refl refl refl unknown refl refl refl target
