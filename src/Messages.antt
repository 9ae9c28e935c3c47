-- ===== src/Messages.antt =====
-- internal/clusterapi/clusterapi.go: what a node tells its peers, and the conversions of its rows.
use immich_go_server.Prelude.{ℤ, String, List}
use immich_go_server.Model.{Directory, DiskState}

pub record DirectoryDto (F : Type 0) : Type 0 where
  pub dir_key : String
  pub node_id : String
  pub disk_serial : String
  pub tier : String
  pub temperature : F
  pub total_bytes : ℤ
  pub access_score : F
  pub last_eval_at : ℤ

-- `Node`, which only the dashboard reads, is left out. It is among the bytes that are signed, on both sides:
-- the signature, a parameter, is a function of what is here.
pub record StatePayload (F : Type 0) : Type 0 where
  pub node_id : String
  pub disks : List DiskState
  pub directories : List (DirectoryDto F)
  pub signed_at : ℤ
  pub signature : String

module _ {F : Type 0} where
  abbrev pub to_model : DirectoryDto F → Directory F
  to_model d = record {
    dir_key = d.dir_key;
    node_id = d.node_id;
    disk_serial = d.disk_serial;
    tier = d.tier;
    temperature = d.temperature;
    total_bytes = d.total_bytes;
    access_score = d.access_score;
    last_eval_at = d.last_eval_at;
  }

  abbrev pub directory_from_model : Directory F → DirectoryDto F
  directory_from_model d = record {
    dir_key = d.dir_key;
    node_id = d.node_id;
    disk_serial = d.disk_serial;
    tier = d.tier;
    temperature = d.temperature;
    total_bytes = d.total_bytes;
    access_score = d.access_score;
    last_eval_at = d.last_eval_at;
  }
