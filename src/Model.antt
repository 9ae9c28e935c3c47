-- ===== src/Model.antt =====
-- internal/model/types.go, and the task and state records that clusterapi sends between nodes.
-- `F` is the type of `float64`. A field of Go's type `int64` or `int` is a ℤ.
use immich_go_server.Prelude.{ℤ, String, Bool, List}

-- Go's `type Tier string`, with its three constants. A tier read from a table or a message may be
-- any other text.
abbrev pub Tier : Type 0
Tier = String

abbrev pub tier_hot : Tier
tier_hot = "HOT"

abbrev pub tier_warm : Tier
tier_warm = "WARM"

abbrev pub tier_cold : Tier
tier_cold = "COLD"

pub record Disk (F : Type 0) : Type 0 where
  pub disk_serial : String
  pub label : String
  pub capacity_bytes : ℤ
  pub free_bytes : ℤ
  pub tier : Tier
  pub mounted_node_id : String
  pub online_seconds : ℤ
  pub online_score : F
  pub first_seen_at : ℤ
  pub last_tick_at : ℤ
  pub last_seen_at : ℤ
  pub suspect : Bool
  pub blob_root : String

pub record Directory (F : Type 0) : Type 0 where
  pub dir_key : String
  pub node_id : String
  pub disk_serial : String
  pub tier : Tier
  pub temperature : F
  pub total_bytes : ℤ
  pub access_score : F
  pub last_eval_at : ℤ

pub record Node (F : Type 0) : Type 0 where
  pub node_id : String
  pub node_url : String
  pub battery_level : ℤ
  pub online_score : F
  pub disks : List (Disk F)
  pub directories : List (Directory F)

pub record Asset : Type 0 where
  pub asset_id : String
  pub size_bytes : ℤ
  pub checksum : String
  pub dir_key : String
  pub original_path : String

pub record Replica : Type 0 where
  pub replica_id : String
  pub asset_id : String
  pub disk_serial : String
  pub node_id : String
  pub checksum : String
  pub status : String

pub record AssetMeta : Type 0 where
  pub asset_id : String
  pub device_asset_id : String
  pub device_id : String
  pub file_created_at : String
  pub file_modified_at : String
  pub is_favorite : Bool
  pub duration : String
  pub kind : String
  pub mime_type : String
  pub original_file_name : String
  pub width : ℤ
  pub height : ℤ

-- clusterapi.Task.
pub record Task : Type 0 where
  pub task_id : String
  pub kind : String
  pub dir_key : String
  pub asset_id : String
  pub src_disk : String
  pub dst_disk : String
  pub status : String

-- clusterapi.DiskState, the view of a disk in a state message.
pub record DiskState : Type 0 where
  pub disk_serial : String
  pub label : String
  pub tier : Tier
  pub free_bytes : ℤ
  pub capacity_bytes : ℤ
  pub mounted_node_id : String
  pub online_seconds : ℤ
  pub blob_root : String
