-- ===== src/Api.antt =====
-- internal/clusterapi/clusterapi.go: the handlers that a node offers its peers, and the byte ranges of
-- the blob download. A handler returns the HTTP status and its answer; a body that cannot be decoded is
-- `none`. (`handleReleaseSource` is in Release.)
pub mod Ranges
pub mod Offsets
pub mod Blob
pub mod Rehost
pub mod Access
pub mod State
pub mod Tests
use immich_go_server.Prelude.{
  ℕ, ◌+◌, ◌*◌, ◌-◌, ◌<◌, ◌^◌, ℤ, pos, negsuc, String, Bool, true, false, not, ◌&&◌, ◌||◌, List, [],
  ◌∷◌, Option, none, some, if◌then◌else◌, ltb, leb, eqb, ltb_ℤ, leb_ℤ, sub64, -ℤ_parts, ◌-ℤ◌, ◌==◌,
  codes, parse_int, cut, Result, ok, err,
}
use immich_go_server.Model.{Task, Directory}
use immich_go_server.Messages.{DirectoryDto, directory_from_model}
use immich_go_server.Store.{Store, StoreError}
use immich_go_server.Store.Disks.{get_disk_location}
use immich_go_server.Store.Replicas.{register_replica}
use immich_go_server.Store.Directories.{get_directory, relinquish_directory}
use immich_go_server.Store.Tasks.{submit_task}

abbrev pub status_of : Result StoreError Unit → ℕ
status_of (ok _) = 200
status_of (err _) = 500

-- ---- the handlers ----

abbrev located : String → Option String → ℕ × Option (String × String)
located serial none = (404, none)
located serial (some node_id) = (200, some (serial, node_id))

module _ {F : Type 0} where
  pub handle_disk_location : String → String → Store F → (ℕ × Option (String × String)) × Store F
  handle_disk_location method serial s =
      if method == "GET"
      then (let (node, s') = get_disk_location serial s in (located serial node, s'))
      else ((405, none), s)

  abbrev registered : Option (String × String × String) → Store F → ℕ × Store F
  registered none s = (400, s)
  registered (some (asset_id, disk_serial, checksum)) s =
      let (r, s') = register_replica asset_id disk_serial checksum s in (status_of r, s')

  pub handle_register_replica : String → Option (String × String × String) → Store F → ℕ × Store F
  handle_register_replica method body s = if method == "POST" then registered body s else (405, s)

  abbrev submitted : ℤ → Option Task → Store F → ℕ × Store F
  submitted now none s = (400, s)
  submitted now (some task) s = let (r, s') = submit_task now task s in (status_of r, s')

  unfoldable pub handle_submit_task : ℤ → String → Option Task → Store F → ℕ × Store F
  handle_submit_task now method body s = if method == "POST" then submitted now body s else (405, s)

  abbrev directory_answer : Result StoreError (Option (Directory F)) → ℕ × Option (DirectoryDto F)
  directory_answer (err _) = (500, none)
  directory_answer (ok none) = (404, none)
  directory_answer (ok (some dir)) = (200, some (directory_from_model dir))

  pub handle_get_directory : String → String → Store F → (ℕ × Option (DirectoryDto F)) × Store F
  handle_get_directory method dir_key s =
      if method == "GET"
      then (let (r, s') = get_directory dir_key s in (directory_answer r, s'))
      else ((405, none), s)

  abbrev rehosted : String → Option (String × String) → Store F → ℕ × Store F
  rehosted node_id none s = (400, s)
  rehosted node_id (some (dir_key, relinquish_node)) s =
      if dir_key == "" || relinquish_node == ""
      then (400, s)
      else if relinquish_node == node_id
      then (let (r, s') = relinquish_directory dir_key s in (status_of r, s'))
      else (200, s)

  pub handle_rehost_directory : String → String → Option (String × String) → Store F → ℕ × Store F
  handle_rehost_directory node_id method body s =
      if method == "POST" then rehosted node_id body s else (405, s)

-- ---- byte ranges ----

-- A text is the list of its codes; 45 is `-`.

-- What is behind the prefix, if something is.
abbrev pub behind : List ℕ → List ℕ → Option (List ℕ)
behind [] [] = none
behind [] (c ∷ cs) = some (c ∷ cs)
behind (p ∷ ps) [] = none
behind (p ∷ ps) (c ∷ cs) = if eqb c p then behind ps cs else none

abbrev suffix_range : ℤ → Option ℤ → Option (ℤ × ℤ)
suffix_range size none = none
suffix_range size (some n) =
    if leb_ℤ n (pos 0) || ltb_ℤ size n then none else some (sub64 size n, sub64 size (pos 1))

abbrev closed_range : ℤ → ℤ → Option ℤ → Option (ℤ × ℤ)
closed_range size start none = none
closed_range size start (some e) = if ltb_ℤ e start || leb_ℤ size e then none else some (start, e)

abbrev open_range : ℤ → ℤ → List ℕ → Option (ℤ × ℤ)
open_range size start [] = some (start, sub64 size (pos 1))
open_range size start (c ∷ cs) = closed_range size start (parse_int (c ∷ cs))

abbrev start_range : ℤ → Option ℤ → List ℕ → Option (ℤ × ℤ)
start_range size none right = none
start_range size (some start) right =
    if ltb_ℤ start (pos 0) || leb_ℤ size start then none else open_range size start right

abbrev split_range : ℤ → Option (List ℕ × List ℕ) → Option (ℤ × ℤ)
split_range size none = none
split_range size (some ([], [])) = none
split_range size (some ([], c ∷ right)) = suffix_range size (parse_int (c ∷ right))
split_range size (some (c ∷ left, right)) = start_range size (parse_int (c ∷ left)) right

abbrev range_of : ℤ → Option (List ℕ) → Option (ℤ × ℤ)
range_of size none = none
range_of size (some spec) = split_range size (cut 45 spec)

-- The closed range of a header, `none` for `ok=false`.
pub parse_byte_range : List ℕ → ℤ → Option (ℤ × ℤ)
parse_byte_range header size = range_of size (behind (codes "bytes=") header)
