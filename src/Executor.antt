-- ===== src/Executor.antt =====
-- internal/migrationexec/executor.go: the executor that copies one directory, over a blob store.
-- `Job` holds what a run can change: the two sides of the blob store, the manifest file, the
-- manifest in memory (`m`, which the code passes by pointer), whether the source is on another node
-- (internal/migrationexec/remote.go; Remote/Source says what such a source answers), and the outcomes of the calls of the
-- blob store that are still to come. A call past the end of `outcomes` succeeds.
pub mod Invariant
pub mod Triples
pub mod Copy
pub mod Ending
pub mod Tests
pub mod File
pub mod Run
pub mod Verdict
pub mod Stale
use immich_go_server.Prelude.{
  ℕ, zero, suc, ◌+◌, ◌^◌, ℤ, pos, String, Bool, true, false, not, List, [], ◌∷◌, ◌++◌, Option, none,
  some, if◌then◌else◌, eqb, leb, ◌&&◌, length, take, drop, ◌==◌, Assoc, lookup, insert, erase,
  Result, ok, err, Action, pure, raise, modify, require, gets, ◌>>=◌, ◌>>◌,
}
use immich_go_server.Config.{Config}
use immich_go_server.Model.{Asset}
use immich_go_server.Migration.{
  Manifest, FileAction, ActionMode, mode_skip, mode_range, mode_whole, mark_completed, set_partial,
  compute_resume, all_copied, can_delete_source, keys, state_in_progress, state_rollback,
  state_verified, state_done,
}

-- A failing write leaves the first `k` bytes of its chunk behind. A failing write of the manifest
-- leaves the old file if `k` is 0, and otherwise one that cannot be read.
pub data Outcome : Type 0 where
  success : Outcome
  failure : ℕ → Outcome

pub data Error : Type 0 where
  io_failed out_of_fuel replicas_below_minimum : Error
  source_missing size_mismatch : String → Error

abbrev pub Bytes : Type 0
Bytes = List ℕ

pub record Job : Type 0 where
  pub remote : Bool
  pub source : Assoc Bytes
  pub target : Assoc Bytes
  pub original : Assoc String
  pub stored : Option Manifest
  pub m : Manifest
  pub outcomes : List Outcome

-- The bytes that a failing call leaves, or `none` if the next call succeeds.
abbrev pub next_failure : List Outcome → Option ℕ
next_failure [] = none
next_failure (success ∷ _) = none
next_failure (failure k ∷ _) = some k

abbrev pub rest_of : List Outcome → List Outcome
rest_of [] = []
rest_of (_ ∷ os) = os

abbrev pub spent : Job → Job
spent s = record s { outcomes = rest_of s.outcomes }

abbrev pub IoAction : Type 0 → Type 0
IoAction A = Action Error Job A

-- ---- the blob store ----

unfoldable pub set_ext : String → String → IoAction Unit
set_ext id path = modify (λ s. record s { original = insert id path s.original })

-- `ok=false` is `none`. An empty file of another node is not found.
unfoldable pub stat_source : String → IoAction (Option ℕ)
stat_source id s = elim (next_failure s.outcomes) [
  | some _ ↦ (ok none, spent s)
  | none ↦ elim (lookup id s.source) [
    | none ↦ (ok none, spent s)
    | some bytes ↦
        (ok (if s.remote && eqb (length bytes) 0 then none else some (length bytes)), spent s)
  ]
]

-- The bytes of the source from `offset` on. Another node refuses an offset at the end.
unfoldable pub open_source : String → ℕ → IoAction Bytes
open_source id offset s = elim (next_failure s.outcomes) [
  | some _ ↦ (err io_failed, spent s)
  | none ↦ elim (lookup id s.source) [
    | none ↦ (err io_failed, spent s)
    | some bytes ↦ (
      if s.remote && leb (length bytes) offset then err io_failed else ok (drop offset bytes),
      spent s,
    )
  ]
]

abbrev pub put_target : String → Bytes → Job → Job
put_target id bytes s = record s { target = insert id bytes s.target }

unfoldable pub create_target : String → IoAction Unit
create_target id s = elim (next_failure s.outcomes) [
  | some _ ↦ (err io_failed, spent s)
  | none ↦ (ok tt, put_target id [] (spent s))
]

-- The number of bytes already there. A missing target is made.
unfoldable pub open_target_append : String → IoAction ℕ
open_target_append id s = elim (next_failure s.outcomes) [
  | some _ ↦ (err io_failed, spent s)
  | none ↦ elim (lookup id s.target) [
    | none ↦ (ok 0, put_target id [] (spent s))
    | some bytes ↦ (ok (length bytes), spent s)
  ]
]

abbrev pub bytes_of : Option Bytes → Bytes
bytes_of none = []
bytes_of (some bytes) = bytes

unfoldable pub write_target : String → Bytes → IoAction Unit
write_target id chunk s = elim (next_failure s.outcomes) [
  | some k ↦
      (err io_failed, put_target id (bytes_of (lookup id s.target) ++ take k chunk) (spent s))
  | none ↦ (ok tt, put_target id (bytes_of (lookup id s.target) ++ chunk) (spent s))
]

unfoldable pub close_target : IoAction Unit
close_target s = elim (next_failure s.outcomes) [
  | some _ ↦ (err io_failed, spent s)
  | none ↦ (ok tt, spent s)
]

-- A read that returns no byte: it fails, or the loop looks at what is left.
unfoldable pub read_source : IoAction Unit
read_source s = elim (next_failure s.outcomes) [
  | some _ ↦ (err io_failed, spent s)
  | none ↦ (ok tt, spent s)
]

abbrev pub after_failure : ℕ → Option Manifest → Option Manifest
after_failure zero old = old
after_failure (suc k) old = none

-- `_ = WriteManifest(*m)`: the error is dropped.
unfoldable pub save_manifest : IoAction Unit
save_manifest s = elim (next_failure s.outcomes) [
  | some k ↦ (ok tt, record (spent s) { stored = after_failure k s.stored })
  | none ↦ (ok tt, record (spent s) { stored = some s.m })
]

-- ---- copying one file ----

abbrev pub record_progress : String → ℕ → IoAction Unit
record_progress id written = modify (λ s. record s { m = set_partial s.m id (pos written) })

abbrev pub record_completed : String → IoAction Unit
record_completed id = modify (λ s. record s { m = mark_completed s.m id })

-- The read-write loop over the bytes that are left; the result is the final `written`.
pub copy_loop : ℕ → ℕ → String → Bytes → ℕ → IoAction ℕ
copy_loop chunk zero id rest written = raise out_of_fuel
copy_loop chunk (suc fuel) id [] written = read_source >> pure written
copy_loop chunk (suc fuel) id (b ∷ bs) written =
    read_source
    >> (write_target id (take chunk (b ∷ bs))
        >> (record_progress id (written + length (take chunk (b ∷ bs)))
            >> (save_manifest >> (λ s.
                copy_loop chunk fuel id (drop chunk (b ∷ bs))
                  (written + length (take chunk (b ∷ bs))) s))))

abbrev pub buf_size : ℕ
buf_size = 2 ^ 20

-- From the opening of the source on, with the target open and `offset` bytes in it.
pub copy_from : Asset → ℕ → ℕ → IoAction Unit
copy_from f size offset = do
  bytes ← open_source f.asset_id offset
  written ← copy_loop buf_size (suc (length bytes)) f.asset_id bytes offset
  close_target
  require (eqb written size) (size_mismatch f.asset_id)
  record_completed f.asset_id
  save_manifest

pub copy_sized : Asset → ActionMode → Option ℕ → IoAction Unit
copy_sized f mode none = raise (source_missing f.asset_id)
copy_sized f mode_skip (some size) = pure tt
copy_sized f mode_range (some size) = do
  offset ← open_target_append f.asset_id
  copy_from f size offset
copy_sized f mode_whole (some size) = do
  create_target f.asset_id
  record_progress f.asset_id 0
  copy_from f size 0

pub copy_mode : Asset → ActionMode → IoAction Unit
copy_mode f mode_skip = pure tt
copy_mode f mode_range = do size ← stat_source f.asset_id; copy_sized f mode_range size
copy_mode f mode_whole = do size ← stat_source f.asset_id; copy_sized f mode_whole size

pub copy_file : Asset → FileAction → IoAction Unit
copy_file f act = do set_ext f.asset_id f.original_path; copy_mode f act.mode

-- ---- the state machine ----

unfoldable pub new_manifest : String → String → String → List Asset → Manifest
new_manifest task_id src_disk dst_disk source = record {
  task_id = task_id;
  src_disk = src_disk;
  dst_disk = dst_disk;
  dir_key = "";
  total_files = length source;
  total_bytes = pos 0;
  completed = [];
  partial = [];
  state = state_in_progress;
}

-- `WriteManifest` where its error is returned.
unfoldable pub write_manifest : IoAction Unit
write_manifest s = elim (next_failure s.outcomes) [
  | some k ↦ (err io_failed, record (spent s) { stored = after_failure k s.stored })
  | none ↦ (ok tt, record (spent s) { stored = some s.m })
]

-- A stored manifest that can be read is taken up again, whatever it is about. `task_id` is the
-- result of `genTaskID`.
unfoldable pub start : String → String → String → List Asset → IoAction Unit
unfolding new_manifest write_manifest
start task_id src_disk dst_disk source s = elim (next_failure s.outcomes) [
  | some _ ↦ write_manifest (record (spent s) { m = new_manifest task_id src_disk dst_disk source })
  | none ↦ elim s.stored [
    | none ↦ write_manifest (record (spent s) { m = new_manifest task_id src_disk dst_disk source })
    | some old ↦ save_manifest (record (spent s) { m = record old { state = state_in_progress } })
  ]
]

-- `byID`: of assets with one id the last counts. A missing id reads as the zero `Asset`.
pub find_asset : String → List Asset → Asset → Asset
find_asset id [] found = found
find_asset id (f ∷ fs) found = find_asset id fs (if f.asset_id == id then f else found)

abbrev pub no_asset : Asset
no_asset = record {
  asset_id = "";
  size_bytes = pos 0;
  checksum = "";
  dir_key = "";
  original_path = "";
}

pub copy_all : List Asset → List FileAction → IoAction Unit
copy_all source [] = pure tt
copy_all source (act ∷ acts) =
    copy_file (find_asset act.asset_id source no_asset) act >> (λ s. copy_all source acts s)

abbrev pub set_state : String → Job → Job
set_state state s = record s { m = record s.m { state = state } }

-- What `Run` does behind the loop, by the loop's outcome.
pub settle : List Asset → Result Error Unit × Job → Result Error String × Job
settle source (err e, s) = (err e, (save_manifest (set_state state_rollback s)).1)
settle source (ok _, s) =
    if all_copied s.m source
    then (ok state_verified, (save_manifest (set_state state_verified s)).1)
    else (ok s.m.state, s)

-- The state that `Run` returns beside an error is that of the manifest, "ROLLBACK".
pub run : List Asset → IoAction String
run source s = settle source (copy_all source (compute_resume s.m source) s)
