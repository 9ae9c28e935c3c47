-- ===== src/Host.antt =====
-- One node: its database (Store) and the files on its disks. A file is known by the root of its disk,
-- its directory and its asset, which is what internal/model/blobpath.go resolves to a path.
use immich_go_server.Prelude.{
  ℕ, String, Bool, not, ◌&&◌, List, [], ◌∷◌, Option, none, some, if◌then◌else◌, ◌==◌, Assoc, retain,
  concat, Action,
}
use immich_go_server.Migration.{Manifest}
use immich_go_server.Store.{Store, StoreError, StoreAction}

-- A file of an asset, by the root of its disk and its directory: what `ResolvePhysPath` resolves.
pub record BlobFile : Type 0 where
  pub root : String
  pub dir_key : String
  pub asset_id : String
  pub bytes : List ℕ

-- What a node keeps: its database, its files and the manifests beside them, by their directory.
-- `blob_root` is the one that the HTTP handler falls back to.
pub record Host (F : Type 0) : Type 0 where
  pub store : Store F
  pub files : List BlobFile
  pub blob_root : String
  pub manifests : Assoc Manifest

abbrev pub is_file : String → String → String → BlobFile → Bool
is_file root dir_key asset_id f = f.root == root && (f.dir_key == dir_key && f.asset_id == asset_id)

-- `_ = os.Remove(…)`
abbrev pub remove_file : String → String → String → List BlobFile → List BlobFile
remove_file root dir_key asset_id files = retain (λ f. not (is_file root dir_key asset_id f)) files

abbrev pub text_or_empty : Option String → String
text_or_empty none = ""
text_or_empty (some t) = t

abbrev pub find_file : String → String → String → List BlobFile → Option (List ℕ)
find_file root dir_key asset_id [] = none
find_file root dir_key asset_id (f ∷ fs) =
    let rest = find_file root dir_key asset_id fs in
    if is_file root dir_key asset_id f then some f.bytes else rest

-- `filepath.Join(root, dirKey)` of names that are clean
abbrev pub dir_path : String → String → String
dir_path root dir_key =
    if root == "" then dir_key else if dir_key == "" then root else concat root (concat "/" dir_key)

abbrev pub HostAction : Type 0 → Type 0 → Type 0
HostAction F A = Action StoreError (Host F) A

module _ {F : Type 0} where
  abbrev pub on_store : {A : Type 0} → StoreAction F A → HostAction F A
  on_store act h = let (r, s') = act h.store in (r, record h { store = s' })
