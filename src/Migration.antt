-- ===== src/Migration.antt =====
-- internal/migration/migration.go: the manifest of a directory's migration, and what follows from it.
pub mod Resume
pub mod Tests
pub mod Copied
use immich_go_server.Prelude.{
  ℕ, ℤ, pos, String, Bool, true, false, List, [], ◌∷◌, ◌++◌, Option, none, some, if◌then◌else◌,
  ltb_ℤ, eqb, not, length, ◌==◌, Assoc, lookup, insert, erase, contains, include, map,
}
use immich_go_server.Config.{Config}
use immich_go_server.Model.{Asset}

abbrev pub state_planned : String
state_planned = "PLANNED"

abbrev pub state_in_progress : String
state_in_progress = "IN_PROGRESS"

abbrev pub state_copied : String
state_copied = "COPIED"

abbrev pub state_verified : String
state_verified = "VERIFIED"

abbrev pub state_done : String
state_done = "DONE"

abbrev pub state_rollback : String
state_rollback = "ROLLBACK"

abbrev pub state_failed : String
state_failed = "FAILED"

pub data ActionMode : Type 0 where
  mode_skip mode_range mode_whole : ActionMode

pub record FileAction : Type 0 where
  pub asset_id : String
  pub mode : ActionMode
  pub bytes_copied : ℤ

-- A nil map `Partial` reads as an empty one, and `SetPartial` makes it before it writes.
pub record Manifest : Type 0 where
  pub task_id : String
  pub src_disk : String
  pub dst_disk : String
  pub dir_key : String
  pub total_files : ℕ
  pub total_bytes : ℤ
  pub completed : List String
  pub partial : Assoc ℤ
  pub state : String

unfoldable pub mark_completed : Manifest → String → Manifest
mark_completed m asset_id = record m {
  completed = m.completed ++ asset_id ∷ [];
  partial = erase asset_id m.partial;
}

unfoldable pub set_partial : Manifest → String → ℤ → Manifest
set_partial m asset_id bytes_copied = record m { partial = insert asset_id bytes_copied m.partial }

-- `compSet`: the completed files as a set.
unfoldable pub comp_set : List String → List String
comp_set [] = []
comp_set (a ∷ rest) = include a (comp_set rest)

abbrev resume_partial : String → Option ℤ → FileAction
resume_partial id none = record { asset_id = id; mode = mode_whole; bytes_copied = pos 0 }
resume_partial id (some bc) =
    if ltb_ℤ (pos 0) bc
    then record { asset_id = id; mode = mode_range; bytes_copied = bc }
    else record { asset_id = id; mode = mode_whole; bytes_copied = pos 0 }

-- The body of the loop of `ComputeResume`.
unfoldable pub resume_one : Manifest → Asset → FileAction
resume_one m f =
    if contains f.asset_id (comp_set m.completed)
    then record { asset_id = f.asset_id; mode = mode_skip; bytes_copied = pos 0 }
    else resume_partial f.asset_id (lookup f.asset_id m.partial)

unfoldable pub compute_resume : Manifest → List Asset → List FileAction
unfolding resume_one
compute_resume m source = map (resume_one m) source

unfoldable pub all_in : List String → List Asset → Bool
all_in set [] = true
all_in set (f ∷ fs) = if contains f.asset_id set then all_in set fs else false

unfoldable pub all_copied : Manifest → List Asset → Bool
unfolding all_in
all_copied m source =
    let set = comp_set m.completed in
    if not (eqb (length set) (length source)) then false else all_in set source

-- A missing key of `effectiveReplicas` reads as 0.
abbrev pub count_of : Option ℤ → ℤ
count_of none = pos 0
count_of (some n) = n

unfoldable pub can_delete_source : {F : Type 0} → List Asset → Assoc ℤ → Config F → Bool
can_delete_source [] effective cfg = true
can_delete_source (a ∷ rest) effective cfg =
    if ltb_ℤ (count_of (lookup a.asset_id effective)) cfg.min_replicas
    then false
    else can_delete_source rest effective cfg

unfoldable pub keys : {V : Type 0} → Assoc V → List String
keys [] = []
keys ((k, v) ∷ m) = k ∷ keys m

unfoldable pub rollback_targets : Manifest → String → List String
unfolding keys
rollback_targets m manifest_path = manifest_path ∷ (m.completed ++ keys m.partial)
