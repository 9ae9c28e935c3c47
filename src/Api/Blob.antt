-- ===== src/Api/Blob.antt =====
-- internal/clusterapi/clusterapi.go: `handleBlob`, and internal/clusterapi/blobfs.go, the source of bytes
-- that it falls back to. A file that is there can be opened and read; header values are lists of codes.
pub mod Stored
use immich_go_server.Prelude.{
  ℕ, ◌+◌, ◌-◌, ◌<◌, ℤ, pos, pos_part, String, Bool, true, false, not, ◌&&◌, ◌||◌, List, [], ◌∷◌,
  ◌++◌, Option, none, some, if◌then◌else◌, eqb, length, take, drop, add64, sub64, ◌==◌, codes,
  format_int,
}
use immich_go_server.Store.Disks.{disk_root}
use immich_go_server.Host.{Host, BlobFile, find_file, text_or_empty}
use immich_go_server.Api.{parse_byte_range}

pub record BlobRequest : Type 0 where
  pub method : String
  pub asset_id : String
  pub disk : String
  pub dir_key : String
  pub range : List ℕ

pub record BlobReply : Type 0 where
  pub status : ℕ
  pub content_range : List ℕ
  pub body : List ℕ

abbrev pub refused : ℕ → BlobReply
refused status = record { status = status; content_range = []; body = [] }

-- `strings.Contains(s, "..")`
abbrev after_dot : List ℕ → Bool
after_dot [] = false
after_dot (c ∷ cs) = eqb c 46

abbrev pub has_dots : List ℕ → Bool
has_dots [] = false
has_dots (c ∷ cs) = (eqb c 46 && after_dot cs) || has_dots cs

abbrev pub has_slash : List ℕ → Bool
has_slash [] = false
has_slash (c ∷ cs) = eqb c 47 || has_slash cs

abbrev pub size_of : List ℕ → ℤ
size_of bytes = pos (length bytes)

-- `io.CopyN(w, rc, end-start+1)` behind `Seek(start)`
abbrev pub slice : ℤ → ℤ → List ℕ → List ℕ
slice start end bytes =
    take (pos_part (add64 (sub64 end start) (pos 1))) (drop (pos_part start) bytes)

abbrev pub part_of : ℤ → ℤ × ℤ → List ℕ → BlobReply
part_of size (start, end) bytes = record {
  status = 206;
  content_range = codes "bytes " ++ format_int start ++ 45 ∷ format_int end ++ 47 ∷ format_int size;
  body = slice start end bytes;
}

abbrev pub reopened : ℤ → ℤ × ℤ → Option (List ℕ) → BlobReply
reopened size r none = refused 500
reopened size r (some bytes) = part_of size r bytes

abbrev pub unsatisfiable : ℤ → BlobReply
unsatisfiable size = record {
  status = 416;
  content_range = codes "bytes */" ++ format_int size;
  body = [];
}

abbrev pub whole : List ℕ → BlobReply
whole bytes = record { status = 200; content_range = []; body = bytes }

abbrev pub root_or : String → Option String → String
root_or fallback none = fallback
root_or fallback (some root) = root

-- `cleanAssetID`
abbrev pub is_clean_id : String → Bool
is_clean_id id = not (id == "" || (has_slash (codes id) || has_dots (codes id)))

-- `FileSystemBlobSource`: the files right under a root.
abbrev pub source_blob : String → String → List BlobFile → Option (List ℕ)
source_blob root id files = if is_clean_id id then find_file root "" id files else none

abbrev pub source_part : List ℕ → Option (ℤ × ℤ) → BlobReply
source_part bytes none = unsatisfiable (size_of bytes)
source_part bytes (some r) = part_of (size_of bytes) r bytes

abbrev pub source_file : List ℕ → Option (List ℕ) → BlobReply
source_file range none = refused 404
source_file [] (some bytes) = whole bytes
source_file (c ∷ cs) (some bytes) = source_part bytes (parse_byte_range (c ∷ cs) (size_of bytes))

module _ {F : Type 0} where
  -- The root is asked for a second time before the file is opened again.
  abbrev pub disk_part : BlobRequest → ℤ → Option (ℤ × ℤ) → Host F → BlobReply × Host F
  disk_part req size none h = (unsatisfiable size, h)
  disk_part req size (some r) h =
      let (found, s) = disk_root req.disk h.store in
      let root = if text_or_empty found == "" then h.blob_root else text_or_empty found in
      (reopened size r (find_file root req.dir_key req.asset_id h.files), record h { store = s })

  abbrev pub disk_file : BlobRequest → Option (List ℕ) → Host F → BlobReply × Host F
  disk_file req none h = (refused 404, h)
  disk_file req (some bytes) h = elim req.range [
    | [] ↦ (whole bytes, h)
    | c ∷ cs ↦ disk_part req (size_of bytes) (parse_byte_range (c ∷ cs) (size_of bytes)) h
  ]

  pub disk_blob : BlobRequest → Host F → BlobReply × Host F
  disk_blob req h =
      let (found, s) = disk_root req.disk h.store in
      let root = root_or h.blob_root found in
      if root == ""
      then (refused 404, record h { store = s })
      else if has_dots (codes req.dir_key) || has_dots (codes req.asset_id)
      then (refused 400, record h { store = s })
      else disk_file req (find_file root req.dir_key req.asset_id h.files) (record h { store = s })

  abbrev pub fallback_blob : BlobRequest → Option String → Host F → BlobReply
  fallback_blob req none h = refused 501
  fallback_blob req (some root) h = source_file req.range (source_blob root req.asset_id h.files)

  -- `source` is the root of `h.Source`, if there is one.
  pub handle_blob : Option String → BlobRequest → Host F → BlobReply × Host F
  unfolding disk_blob
  handle_blob source req h =
      if not (req.method == "GET")
      then (refused 405, h)
      else if not (req.disk == "") && not (req.dir_key == "")
      then disk_blob req h
      else (fallback_blob req source h, h)
