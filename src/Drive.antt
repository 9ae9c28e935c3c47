-- ===== src/Drive.antt =====
-- internal/diskid/diskid.go: the two files that a disk carries with it; and `claimDisk` of
-- cmd/server/main.go, which claims one disk of the node at every tick. A file that cannot be decoded
-- has no entry in `ids`, and the entry `none` in `stats`. Each read or write of a file takes one of
-- `outcomes`: a failing write leaves the old file, or one that cannot be decoded.
pub mod Claiming
pub mod Tests
use immich_go_server.Prelude.{
  ℕ, zero, suc, ℤ, pos, String, Bool, true, false, List, [], ◌∷◌, Option, none, some, if◌then◌else◌,
  ◌==◌, Assoc, lookup, insert, erase, Result, ok, err, Action, pure, raise, ◌>>=◌, ◌>>◌,
}
use immich_go_server.Float64.{Float64}
use immich_go_server.Model.{Disk, tier_hot}
use immich_go_server.Store.{Store, StoreError, StoreAction}
use immich_go_server.Store.Disks.{save_disk, update_space, claim_or_touch_disk}
use immich_go_server.Executor.{Outcome, next_failure, rest_of}

pub record DiskIdFile : Type 0 where
  pub disk_id : String
  pub generated_at : ℤ
  pub host_node_id : String
  pub label : String

pub record DiskStatsFile : Type 0 where
  pub disk_id : String
  pub online_seconds : ℤ
  pub first_seen_at : ℤ
  pub last_tick_at : ℤ
  pub updated_at : ℤ

-- The database of the node, and the files by the directory that they are in.
pub record Drives (F : Type 0) : Type 0 where
  pub store : Store F
  pub ids : Assoc DiskIdFile
  pub stats : Assoc (Option DiskStatsFile)
  pub outcomes : List Outcome

pub data ClaimError : Type 0 where
  disk_id_failed disk_stats_failed write_stats_failed : ClaimError
  save_failed claim_failed : StoreError → ClaimError

abbrev pub left_over : {V : Type 0} → ℕ → String → Assoc V → Assoc V
left_over zero dir files = files
left_over (suc k) dir files = erase dir files

abbrev pub broken : ℕ → String → Assoc (Option DiskStatsFile) → Assoc (Option DiskStatsFile)
broken zero dir files = files
broken (suc k) dir files = insert dir none files

abbrev found_stats : Option (Option DiskStatsFile) → Result ClaimError (Option DiskStatsFile)
found_stats none = ok none
found_stats (some none) = err disk_stats_failed
found_stats (some (some f)) = ok (some f)

abbrev pub DriveAction : Type 0 → Type 0 → Type 0
DriveAction F A = Action ClaimError (Drives F) A

module _ {F : Type 0} where
  abbrev pub spent : Drives F → Drives F
  spent s = record s { outcomes = rest_of s.outcomes }

  -- ---- the identity of a disk ----

  unfoldable pub write_disk_id : String → DiskIdFile → DriveAction F DiskIdFile
  write_disk_id dir f s = elim (next_failure s.outcomes) [
    | some k ↦ (err disk_id_failed, record (spent s) { ids = left_over k dir s.ids })
    | none ↦ (ok f, record (spent s) { ids = insert dir f s.ids })
  ]

  -- `fresh` is what is written where there is no identity yet.
  abbrev pub found_disk_id : String → DiskIdFile → Option DiskIdFile → DriveAction F DiskIdFile
  found_disk_id dir fresh none = write_disk_id dir fresh
  found_disk_id dir fresh (some f) =
      λ s. if f.disk_id == "" then write_disk_id dir fresh s else (ok f, s)

  -- A file that cannot be read counts as missing.
  unfoldable pub read_or_create_disk_id : String → DiskIdFile → DriveAction F DiskIdFile
  read_or_create_disk_id dir fresh s = elim (next_failure s.outcomes) [
    | some _ ↦ write_disk_id dir fresh (spent s)
    | none ↦ found_disk_id dir fresh (lookup dir s.ids) (spent s)
  ]

  -- ---- the statistics of a disk ----

  -- `ok=false` is `none`.
  unfoldable pub read_disk_stats : String → DriveAction F (Option DiskStatsFile)
  read_disk_stats dir s = elim (next_failure s.outcomes) [
    | some _ ↦ (ok none, spent s)
    | none ↦ (found_stats (lookup dir s.stats), spent s)
  ]

  unfoldable pub write_disk_stats : String → DiskStatsFile → DriveAction F Unit
  write_disk_stats dir f s = elim (next_failure s.outcomes) [
    | some k ↦ (err write_stats_failed, record (spent s) { stats = broken k dir s.stats })
    | none ↦ (ok tt, record (spent s) { stats = insert dir (some f) s.stats })
  ]

  abbrev wrapped :
      {A : Type 0}
      → (StoreError → ClaimError)
      → Result StoreError A × Store F
      → Drives F
      → Result ClaimError A × Drives F
  wrapped fail (ok a, t) s = (ok a, record s { store = t })
  wrapped fail (err e, t) s = (err (fail e), record s { store = t })

  abbrev pub in_store : {A : Type 0} → (StoreError → ClaimError) → StoreAction F A → DriveAction F A
  in_store fail act s = wrapped fail (act s.store) s

-- `space` is what `diskutil.GetSpace` answers: the free and all bytes, if it can. `new_id` is the
-- result of `genUUID` and `now_milli` the time in milliseconds.
module _ (fl : Float64) (new_id : String) (now_milli : ℤ) (space : String → Option (ℤ × ℤ)) where
  abbrev pub fresh_id : String → DiskIdFile
  fresh_id node_id = record {
    disk_id = new_id;
    generated_at = now_milli;
    host_node_id = node_id;
    label = "";
  }

  abbrev pub stats_or_new : String → ℤ → Option DiskStatsFile → DiskStatsFile
  stats_or_new disk_id now (some stats) = stats
  stats_or_new disk_id now none = record {
    disk_id = disk_id;
    online_seconds = pos 0;
    first_seen_at = now;
    last_tick_at = now;
    updated_at = pos 0;
  }

  -- The fields that `claimDisk` does not set are 0.
  abbrev pub disk_of : DiskIdFile → DiskStatsFile → String → ℤ → Disk fl.F
  disk_of id_file stats dir now = record {
    disk_serial = id_file.disk_id;
    label = id_file.label;
    capacity_bytes = pos 0;
    free_bytes = pos 0;
    tier = tier_hot;
    mounted_node_id = "";
    online_seconds = pos 0;
    online_score = fl.of_int (pos 0);
    first_seen_at = stats.first_seen_at;
    last_seen_at = now;
    last_tick_at = pos 0;
    suspect = false;
    blob_root = dir;
  }

  -- An error of the database is logged only.
  abbrev pub collect_space : String → Option (ℤ × ℤ) → DriveAction fl.F Unit
  collect_space serial none = pure tt
  collect_space serial (some (free, total)) =
      λ s. (ok tt, record s { store = (update_space serial free total s.store).1 })

  abbrev pub renewed : DiskStatsFile → Disk fl.F → ℤ → DiskStatsFile
  renewed stats d now = record stats {
    online_seconds = d.online_seconds;
    last_tick_at = now;
    updated_at = now;
  }

  unfoldable pub claim_disk : String → String → ℤ → ℤ → DriveAction fl.F Unit
  claim_disk dir node_id now grace = do
    id_file ← read_or_create_disk_id dir (fresh_id node_id)
    found ← read_disk_stats dir
    let stats = stats_or_new id_file.disk_id now found
    in_store save_failed (save_disk fl (disk_of id_file stats dir now))
    collect_space id_file.disk_id (space dir)
    claimed ← in_store claim_failed (claim_or_touch_disk fl id_file.disk_id node_id now grace)
    write_disk_stats dir (renewed stats claimed now)
