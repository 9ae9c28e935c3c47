-- ===== src/Remote.antt =====
-- internal/migrationexec/remote.go: the source of a migration whose bytes are on another node. A call
-- that gets no answer is `none`. The authentication of the calls is in Api/Access.
pub mod Source
pub mod Tests
use immich_go_server.Prelude.{
  ℕ, ◌<◌, ℤ, pos, negsuc, pos_part, String, Bool, true, false, ◌||◌, List, [], ◌∷◌, ◌++◌, Option,
  none, some, if◌then◌else◌, eqb, ltb_ℤ, leb_ℤ, ◌==◌, codes, cut, parse_int, format_int, Result, ok,
  err,
}
use immich_go_server.Api.{behind}
use immich_go_server.Api.Blob.{BlobRequest, BlobReply, handle_blob}
use immich_go_server.Host.{Host}

-- The fields that tell where the bytes are.
pub record RemoteSource : Type 0 where
  pub disk_serial : String
  pub dir_key : String

pub data RemoteError : Type 0 where
  no_answer blob_not_found : RemoteError
  unexpected_status : ℕ → RemoteError

-- The two query parameters are sent together or not at all.
abbrev pub blob_request : RemoteSource → String → List ℕ → BlobRequest
blob_request r asset_id range =
    let single = r.disk_serial == "" || r.dir_key == "" in
    record {
      method = "GET";
      asset_id = asset_id;
      disk = if single then "" else r.disk_serial;
      dir_key = if single then "" else r.dir_key;
      range = range;
    }

abbrev pub or_minus_one : Option ℤ → ℤ
or_minus_one none = negsuc 0
or_minus_one (some n) = n

abbrev pub total_behind : Option (List ℕ × List ℕ) → ℤ
total_behind none = negsuc 0
total_behind (some (_, [])) = negsuc 0
total_behind (some (_, c ∷ [])) = if eqb c 42 then negsuc 0 else or_minus_one (parse_int (c ∷ []))
total_behind (some (_, c ∷ d ∷ cs)) = or_minus_one (parse_int (c ∷ d ∷ cs))

abbrev total_of : Option (List ℕ) → ℤ
total_of none = negsuc 0
total_of (some rest) = total_behind (cut 47 rest)

pub parse_content_range_total : List ℕ → ℤ
parse_content_range_total cr = total_of (behind (codes "bytes ") cr)

abbrev pub known_total : ℤ → Option ℤ
known_total n = if ltb_ℤ n (pos 0) then none else some n

abbrev pub stat_answer : Option BlobReply → Option ℤ
unfolding parse_content_range_total
stat_answer none = none
stat_answer (some r) =
    if eqb r.status 404
    then none
    else if eqb r.status 206
    then known_total (parse_content_range_total r.content_range)
    else none

abbrev pub open_answer : Option BlobReply → Result RemoteError (List ℕ)
open_answer none = err no_answer
open_answer (some r) =
    if eqb r.status 404
    then err blob_not_found
    else if eqb r.status 206 || eqb r.status 200
    then ok r.body
    else err (unexpected_status r.status)

abbrev pub offset_range : ℤ → List ℕ
offset_range offset =
    if leb_ℤ offset (pos 0)
    then codes "bytes=0-"
    else codes "bytes=" ++ format_int offset ++ 45 ∷ []

-- `call` sends the request and gives the answer, and the state of the world after it.
module _ {W : Type 0} (call : BlobRequest → W → Option BlobReply × W) where
  pub stat_source : RemoteSource → String → W → Option ℤ × W
  stat_source r asset_id w =
      let (reply, w') = call (blob_request r asset_id (codes "bytes=0-0")) w in
      (stat_answer reply, w')

  pub open_source : RemoteSource → String → ℤ → W → Result RemoteError (List ℕ) × W
  open_source r asset_id offset w =
      let (reply, w') = call (blob_request r asset_id (offset_range offset)) w in
      (open_answer reply, w')

-- A call that reaches the node and whose answer comes back.
abbrev pub answered :
    {F : Type 0} → Option String → BlobRequest → Host F → Option BlobReply × Host F
answered source req h = let (reply, h') = handle_blob source req h in (some reply, h')
