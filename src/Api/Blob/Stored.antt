-- ===== src/Api/Blob/Stored.antt =====
-- What `handleBlob` answers for a file that is on the disk that is asked for.
use immich_go_server.Prelude.{
  ℕ, ◌<◌, ◌^◌, ℤ, String, ◌≡◌, ◌≢◌, refl, true, false, List, ◌∷◌, Option, none, some, arith, ◌==◌,
  eq_iff, codes, lookup, length,
}
use immich_go_server.Model.{Disk}
use immich_go_server.Store.{working}
use immich_go_server.Store.Disks.{disk_root, get_disk}
use immich_go_server.Host.{Host, find_file}
use immich_go_server.Api.{parse_byte_range}
use immich_go_server.Api.Blob.{
  BlobRequest, handle_blob, disk_blob, disk_part, has_dots, size_of, source_part,
}

-- The node while its database works.
abbrev pub up : {F : Type 0} → Host F → Host F
up h = record h { store = working h.store }

pub is_false : (a b : String) → a ≢ b → (a == b) ≡ false
is_false a b n = ground (arith, n, eq_iff a b)

-- On that disk of the node the file of the asset in the directory has these bytes.
pub record IsStored {F : Type 0} (h : Host F) (serial dir_key asset_id : String) (bytes : List ℕ)
    : Type 0 where
  pub disk : Disk F
  pub mounted : lookup serial h.store.disk ≡ some disk
  pub rooted : disk.blob_root ≢ ""
  pub there : find_file disk.blob_root dir_key asset_id h.files ≡ some bytes
  pub disk_named : serial ≢ ""
  pub dir_named : dir_key ≢ ""
  pub clean_dir : has_dots (codes dir_key) ≡ false
  pub clean_id : has_dots (codes asset_id) ≡ false
  pub fits : length bytes < 2 ^ 63

module _ {F : Type 0} (h : Host F) (bytes : List ℕ) where
  disk_root_found :
      (serial : String) (d : Disk F)
      → lookup serial h.store.disk ≡ some d
      → d.blob_root ≢ ""
      → disk_root serial (working h.store) ≡ (some d.blob_root, working h.store)
  unfolding disk_root get_disk
  disk_root_found serial d found rooted = rw (found, is_false d.blob_root "" rooted)

  part_lem :
      (req : BlobRequest) (s : IsStored h req.disk req.dir_key req.asset_id bytes)
      (o : Option (ℤ × ℤ))
      → disk_part req (size_of bytes) o (up h) ≡ (source_part bytes o, up h)
  part_lem req s none = refl
  part_lem req s (some r) =
      rw
        (
          disk_root_found req.disk s.disk s.mounted s.rooted,
          is_false s.disk.blob_root "" s.rooted,
          s.there,
        )
        refl

  pub handle_blob_part :
      (source : Option String) (req : BlobRequest) (c : ℕ) (cs : List ℕ)
      → req.method ≡ "GET"
      → req.range ≡ c ∷ cs
      → IsStored h req.disk req.dir_key req.asset_id bytes
      → handle_blob source req (up h)
        ≡ (source_part bytes (parse_byte_range (c ∷ cs) (size_of bytes)), up h)
  unfolding handle_blob disk_blob
  handle_blob_part source req c cs get range s =
      let is_get : (req.method == "GET") ≡ true = (eq_iff req.method "GET").1 get in
      rw
        (
          is_get,
          is_false req.disk "" s.disk_named,
          is_false req.dir_key "" s.dir_named,
          disk_root_found req.disk s.disk s.mounted s.rooted,
          is_false s.disk.blob_root "" s.rooted,
          s.clean_dir,
          s.clean_id,
          s.there,
          range,
        )
        (part_lem req s (parse_byte_range (c ∷ cs) (size_of bytes)))
