-- ===== src/Store/Uploads/Deletion.antt =====
-- What is left after the deletion of an asset.
use immich_go_server.Prelude.{
  String, ◌≡◌, refl, ap, ◌∙◌, not, none, some, arith, if◌then◌else◌, ◌==◌, eq_refl, lookup, erase,
  lookup-erase, retain, ok,
}
use immich_go_server.Model.{Asset}
use immich_go_server.Store.{Store, working, rows_of, delete_where}
use immich_go_server.Store.Rows.{rows_of-delete_where}
use immich_go_server.Store.Assets.{get_asset, delete_device_assets}
use immich_go_server.Store.Uploads.{delete_asset, clear_directory}

module _ {F : Type 0} where
  -- The tables that clearing the directory does not touch.
  clear_directory_frame :
      (dir_key : String) (t : Store F)
      → ((clear_directory dir_key (working t)).1.asset ≡ t.asset)
        × ((clear_directory dir_key (working t)).1.asset_meta ≡ t.asset_meta)
        × ((clear_directory dir_key (working t)).1.replica ≡ t.replica)
        × ((clear_directory dir_key (working t)).1.device_asset ≡ t.device_asset)
  unfolding clear_directory
  clear_directory_frame dir_key t = ground arith

  -- The store before the directory is cleared.
  abbrev emptied : String → Store F → Store F
  emptied asset_id s = record s {
    asset = erase asset_id s.asset;
    replica = delete_where (λ r. r.asset_id == asset_id) s.replica;
    device_asset = retain (λ r. not (r.asset_id == asset_id)) s.device_asset;
    asset_meta = erase asset_id s.asset_meta;
  }

  delete_asset_lem :
      (asset_id : String) (a : Asset) (s : Store F)
      → lookup asset_id s.asset ≡ some a
      → delete_asset asset_id (working s)
        ≡ (ok (some a), (clear_directory a.dir_key (working (emptied asset_id s))).1)
  unfolding delete_asset get_asset delete_device_assets clear_directory
  delete_asset_lem asset_id a s found = rw found refl

  -- While the engine works, deleting an asset that is there returns it, and afterwards neither its row nor
  -- its display data nor a replica of it nor a mapping of a device to it is left, and the other assets
  -- have the rows that they had.
  pub delete_asset_gone :
      (asset_id : String) (a : Asset) (s : Store F)
      → lookup asset_id s.asset ≡ some a
      → ((delete_asset asset_id (working s)).0 ≡ ok (some a))
        × (lookup asset_id (delete_asset asset_id (working s)).1.asset_meta ≡ none)
        × ((k : String)
            → lookup k (delete_asset asset_id (working s)).1.asset
              ≡ (if asset_id == k then none else lookup k s.asset))
        × (rows_of (delete_asset asset_id (working s)).1.replica
            ≡ retain (λ r. not (r.asset_id == asset_id)) (rows_of s.replica))
        × ((delete_asset asset_id (working s)).1.device_asset
            ≡ retain (λ r. not (r.asset_id == asset_id)) s.device_asset)
  delete_asset_gone asset_id a s found =
      let step = delete_asset_lem asset_id a s found in
      let frame = clear_directory_frame a.dir_key (emptied asset_id s) in
      (
        ap (λ r. r.0) step,
        ap (λ r. lookup asset_id r.1.asset_meta) step
            ∙ ap (lookup asset_id) frame.1
            ∙ lookup-erase asset_id asset_id s.asset_meta
            ∙ rw eq_refl refl,
        (λ k.
            ap (λ r. lookup k r.1.asset) step
            ∙ ap (lookup k) frame.0
            ∙ lookup-erase asset_id k s.asset),
        ap (λ r. rows_of r.1.replica) step
            ∙ ap rows_of frame.2
            ∙ rows_of-delete_where (λ r. r.asset_id == asset_id) s.replica,
        ap (λ r. r.1.device_asset) step ∙ frame.3,
      )
