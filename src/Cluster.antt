-- ===== src/Cluster.antt =====
-- internal/cluster/cluster.go, and how internal/cluster/federation.go makes the view of the whole
-- cluster of the states that the nodes report.
pub mod Directories
pub mod Agreement
pub mod Election
pub mod Tests
pub mod Disks
use immich_go_server.Prelude.{
  ℕ, ℤ, pos, negsuc, String, Bool, true, false, ◌&&◌, ◌||◌, List, [], ◌∷◌, ◌++◌, map, Option, none,
  some, if◌then◌else◌, ltb_ℤ, eqb_ℤ, ◌==◌, less, Assoc, lookup, insert,
}
use immich_go_server.Float64.{Float64}
use immich_go_server.Model.{Disk, Directory, Node, DiskState}
use immich_go_server.Messages.{StatePayload, DirectoryDto, to_model}

module _ {F : Type 0} where
  -- The record for a serial that was reported before and is reported again as `d`.
  unfoldable pub merge_disk : Disk F → Disk F → Disk F
  merge_disk d cur = record cur {
    online_seconds =
        if ltb_ℤ cur.online_seconds d.online_seconds then d.online_seconds else cur.online_seconds;
    mounted_node_id =
        if ltb_ℤ cur.last_seen_at d.last_seen_at then d.mounted_node_id else cur.mounted_node_id;
    free_bytes = d.free_bytes;
    first_seen_at =
        if ltb_ℤ d.first_seen_at cur.first_seen_at then d.first_seen_at else cur.first_seen_at;
  }

  abbrev pub merged_disk : Disk F → Option (Disk F) → Disk F
  merged_disk d none = d
  merged_disk d (some cur) = merge_disk d cur

  pub merge_disks : List (Disk F) → Assoc (Disk F) → Assoc (Disk F)
  merge_disks [] merged = merged
  merge_disks (d ∷ ds) merged =
      merge_disks ds (insert d.disk_serial (merged_disk d (lookup d.disk_serial merged)) merged)

  abbrev pub all_disks : List (Node F) → List (Disk F)
  all_disks [] = []
  all_disks (n ∷ ns) = n.disks ++ all_disks ns

  pub aggregate_disk_stats : List (Node F) → Assoc (Disk F)
  aggregate_disk_stats reports = merge_disks (all_disks reports) []

  -- The newer record wins, and of two equally old ones that of the greater node id.
  unfoldable pub supersedes : Directory F → Directory F → Bool
  supersedes d cur =
      ltb_ℤ cur.last_eval_at d.last_eval_at
      || (eqb_ℤ d.last_eval_at cur.last_eval_at && less cur.node_id d.node_id)

  abbrev pub placed : Directory F → Option (Directory F) → Directory F
  placed d none = d
  placed d (some cur) = if supersedes d cur then d else cur

  pub merge_directories : List (Directory F) → Assoc (Directory F) → Assoc (Directory F)
  merge_directories [] merged = merged
  merge_directories (d ∷ ds) merged =
      merge_directories ds (insert d.dir_key (placed d (lookup d.dir_key merged)) merged)

  abbrev pub all_directories : List (Node F) → List (Directory F)
  all_directories [] = []
  all_directories (n ∷ ns) = n.directories ++ all_directories ns

  pub aggregate_directory_stats : List (Node F) → Assoc (Directory F)
  aggregate_directory_stats reports = merge_directories (all_directories reports) []

module _ (fl : Float64) where
  -- `best` and `score` are the variables of the loop.
  pub elect_from : String → fl.F → List (Node fl.F) → String
  elect_from best score [] = best
  elect_from best score (n ∷ ns) =
      let wins =
        fl.lt score n.online_score
        || (fl.eq n.online_score score && (best == "" || less n.node_id best)) in
      elect_from (if wins then n.node_id else best) (if wins then n.online_score else score) ns

  pub elect_coordinator : List (Node fl.F) → String
  elect_coordinator nodes = elect_from "" (fl.of_int (negsuc 0)) nodes

  -- The fields that a state message is not asked for are 0.
  abbrev pub disk_from_state : DiskState → Disk fl.F
  disk_from_state d = record {
    disk_serial = d.disk_serial;
    label = "";
    capacity_bytes = pos 0;
    free_bytes = d.free_bytes;
    tier = d.tier;
    mounted_node_id = d.mounted_node_id;
    online_seconds = d.online_seconds;
    online_score = fl.of_int (pos 0);
    first_seen_at = pos 0;
    last_tick_at = pos 0;
    last_seen_at = pos 0;
    suspect = false;
    blob_root = "";
  }

  abbrev pub score_of : fl.F → List DiskState → fl.F
  score_of score [] = score
  score_of score (d ∷ ds) = score_of (fl.add score (fl.of_int d.online_seconds)) ds

  pub node_from_state : String → StatePayload fl.F → Node fl.F
  node_from_state node_id sp = record {
    node_id = node_id;
    node_url = "";
    battery_level = pos 0;
    online_score = score_of (fl.of_int (pos 0)) sp.disks;
    disks = map disk_from_state sp.disks;
    directories = map to_model sp.directories;
  }
