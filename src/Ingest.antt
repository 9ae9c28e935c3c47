-- ===== src/Ingest.antt =====
-- internal/ingest/ingest.go: the sidecar of a directory on a disk, which lists its assets. The sidecars are
-- known by the path of their directory; one that cannot be read counts as missing.
use immich_go_server.Prelude.{
  ℤ, String, not, List, [], ◌∷◌, Option, none, some, ◌==◌, Assoc, lookup, insert, erase, retain,
  sort_by,
}
use immich_go_server.Store.{rows_of}

pub record MetaAsset : Type 0 where
  pub asset_id : String
  pub checksum : String
  pub size_bytes : ℤ
  pub original_path : String
  pub captured_at : String
  pub kind : String

abbrev pub Sidecars : Type 0
Sidecars = Assoc (List MetaAsset)

abbrev pub listed : Option (List MetaAsset) → List MetaAsset
listed none = []
listed (some assets) = assets

abbrev by_id : List MetaAsset → Assoc MetaAsset → Assoc MetaAsset
by_id [] merged = merged
by_id (a ∷ rest) merged = by_id rest (insert a.asset_id a merged)

-- `FlushMeta`, where the file can be written
unfoldable pub flush_meta : String → List MetaAsset → Sidecars → Sidecars
flush_meta path assets sidecars =
    insert path
      (sort_by (λ a. a.asset_id)
        (rows_of (by_id assets (by_id (listed (lookup path sidecars)) []))))
      sidecars

abbrev written_back : String → List MetaAsset → Sidecars → Sidecars
written_back path [] sidecars = erase path sidecars
written_back path (a ∷ rest) sidecars = insert path (a ∷ rest) sidecars

abbrev without : String → String → Option (List MetaAsset) → Sidecars → Sidecars
without path asset_id none sidecars = sidecars
without path asset_id (some assets) sidecars =
    written_back path (retain (λ a. not (a.asset_id == asset_id)) assets) sidecars

pub remove_asset_from_meta : String → String → Sidecars → Sidecars
remove_asset_from_meta path asset_id sidecars =
    without path asset_id (lookup path sidecars) sidecars
