-- ===== src/Store/Assets.antt =====
-- internal/store/store.go: the tables `asset`, `asset_meta`, `device_asset` and `server_config`.
use immich_go_server.Prelude.{
  String, Bool, not, ◌&&◌, List, [], ◌∷◌, ◌++◌, Option, if◌then◌else◌, ◌==◌, Assoc, lookup, insert,
  retain, pure,
}
use immich_go_server.Model.{Asset, AssetMeta}
use immich_go_server.Store.{DeviceAsset, StoreAction, exec, query, upsert, rows_of}

-- `OriginalPath` stays as it was first recorded.
abbrev pub asset_onto : Asset → Asset → Asset
asset_onto a old = record old {
  size_bytes = a.size_bytes;
  checksum = a.checksum;
  dir_key = a.dir_key;
}

abbrev pub is_mapping : String → String → DeviceAsset → Bool
is_mapping device_id device_asset_id r =
    r.device_id == device_id && r.device_asset_id == device_asset_id

-- `out[daid] = aid` over the rows of the device.
abbrev pub mappings : String → List DeviceAsset → Assoc String → Assoc String
mappings device_id [] out = out
mappings device_id (r ∷ rows) out =
    mappings device_id rows
      (if r.device_id == device_id then insert r.device_asset_id r.asset_id out else out)

module _ {F : Type 0} where
  unfoldable pub save_asset : Asset → StoreAction F Unit
  save_asset a = exec (λ s. record s { asset = upsert a.asset_id a (asset_onto a) s.asset })

  unfoldable pub list_assets : StoreAction F (List Asset)
  list_assets = query (λ s. rows_of s.asset)

  unfoldable pub list_assets_by_dir : String → StoreAction F (List Asset)
  list_assets_by_dir dir_key = query (λ s. retain (λ a. a.dir_key == dir_key) (rows_of s.asset))

  unfoldable pub get_asset : String → StoreAction F (Option Asset)
  get_asset asset_id = query (λ s. lookup asset_id s.asset)

  pub get_server_config : String → StoreAction F (Option String)
  get_server_config k = query (λ s. lookup k s.server_config)

  pub set_server_config : String → String → StoreAction F Unit
  set_server_config k v = exec (λ s. record s { server_config = insert k v s.server_config })

  unfoldable pub save_asset_meta : AssetMeta → StoreAction F Unit
  save_asset_meta m = exec (λ s. record s { asset_meta = insert m.asset_id m s.asset_meta })

  unfoldable pub get_asset_meta : String → StoreAction F (Option AssetMeta)
  get_asset_meta asset_id = query (λ s. lookup asset_id s.asset_meta)

  -- `INSERT OR REPLACE` takes the old row away and adds the new one.
  unfoldable pub save_device_asset : String → String → String → StoreAction F Unit
  save_device_asset device_id device_asset_id asset_id = exec λ s. record s {
    device_asset =
        retain (λ r. not (is_mapping device_id device_asset_id r)) s.device_asset
        ++ record { device_id = device_id; device_asset_id = device_asset_id; asset_id = asset_id }
          ∷ [];
  }

  -- Every mapping of the device: the ids asked for only matter if there is none.
  unfoldable pub lookup_device_assets : String → List String → StoreAction F (Assoc String)
  lookup_device_assets device_id [] = pure []
  lookup_device_assets device_id (_ ∷ _) = query (λ s. mappings device_id s.device_asset [])

  unfoldable pub delete_device_assets : String → StoreAction F Unit
  delete_device_assets asset_id =
      exec
        (λ s. record s { device_asset = retain (λ r. not (r.asset_id == asset_id)) s.device_asset })
