-- ===== src/Store/Disks.antt =====
-- internal/store/store.go: the tables `disk` and `node`.
pub mod Claims
use immich_go_server.Prelude.{
  ℕ, ℤ, pos, String, Bool, true, false, not, ◌&&◌, List, [], ◌∷◌, Option, none, some, if◌then◌else◌,
  ltb_ℤ, ◌==◌, Assoc, lookup, insert, retain, Result, ok, err, Action, pure, raise, ◌>>=◌, ◌>>◌,
}
use immich_go_server.Float64.{Float64}
use immich_go_server.Model.{Disk, Node, DiskState}
use immich_go_server.Claim.{eligible_for_claim, accrue_online_seconds}
use immich_go_server.Store.{
  Store, NodeRow, StoreAction, StoreError, disk_not_found, disk_owned, exec, query, upsert, adjust,
  rows_of, faulty, called, engine_failed,
}

-- The table has no column for `OnlineScore` and `LastTickAt`: they read as 0.
abbrev pub disk_row : (fl : Float64) → Disk fl.F → Disk fl.F
disk_row fl d = record d { online_score = fl.of_int (pos 0); last_tick_at = pos 0 }

-- The columns that `ON CONFLICT` sets; the others keep what they have.
abbrev pub disk_onto : {F : Type 0} → Disk F → Disk F → Disk F
disk_onto d old = record old {
  label = d.label;
  tier = d.tier;
  mounted_node_id = d.mounted_node_id;
  online_seconds = d.online_seconds;
  last_seen_at = d.last_seen_at;
  suspect = d.suspect;
}

unfoldable pub save_disk : (fl : Float64) → Disk fl.F → StoreAction fl.F Unit
save_disk fl d =
    exec (λ s. record s { disk = upsert d.disk_serial (disk_row fl d) (disk_onto d) s.disk })

module _ {F : Type 0} where
  unfoldable pub get_disk : String → StoreAction F (Option (Disk F))
  get_disk serial = query (λ s. lookup serial s.disk)

  unfoldable pub list_disks : StoreAction F (List (Disk F))
  list_disks = query (λ s. rows_of s.disk)

  pub update_free : String → ℤ → StoreAction F Unit
  update_free serial free_bytes =
      exec
        (λ s. record s { disk = adjust serial (λ d. record d { free_bytes = free_bytes }) s.disk })

  unfoldable pub update_space : String → ℤ → ℤ → StoreAction F Unit
  update_space serial free_bytes capacity_bytes = exec λ s. record s {
    disk =
        adjust serial (λ d. record d { free_bytes = free_bytes; capacity_bytes = capacity_bytes })
          s.disk;
  }

  pub upsert_node : Node F → StoreAction F Unit
  upsert_node n = exec λ s. record s {
    node =
        insert n.node_id
          (record {
            node_id = n.node_id;
            node_url = n.node_url;
            battery_level = n.battery_level;
            online_score = n.online_score;
          })
          s.node;
  }

  abbrev root_of : Result StoreError (Option (Disk F)) → Option String
  root_of (err _) = none
  root_of (ok none) = none
  root_of (ok (some d)) = if d.blob_root == "" then none else some d.blob_root

  unfoldable pub disk_root : String → Store F → Option String × Store F
  disk_root serial s = let (r, s') = get_disk serial s in (root_of r, s')

  abbrev location_of : Result StoreError (Option (Disk F)) → Option String
  location_of (err _) = none
  location_of (ok none) = none
  location_of (ok (some d)) = some d.mounted_node_id

  -- A failing query reads as a missing row.
  unfoldable pub get_disk_location : String → Store F → Option String × Store F
  get_disk_location serial s =
      let (r, s') = query (λ t. lookup serial t.disk) s in (location_of r, s')

  -- `ORDER BY free_bytes DESC`
  abbrev by_free : Disk F → List (Disk F) → List (Disk F)
  by_free d [] = d ∷ []
  by_free d (e ∷ es) = if ltb_ℤ d.free_bytes e.free_bytes then e ∷ by_free d es else d ∷ e ∷ es

  abbrev pub sort_by_free : List (Disk F) → List (Disk F)
  sort_by_free [] = []
  sort_by_free (d ∷ ds) = by_free d (sort_by_free ds)

  unfoldable pub list_mounted_disks : String → StoreAction F (List (Disk F))
  list_mounted_disks node_id = query λ s.
      sort_by_free (retain (λ d. d.mounted_node_id == node_id && not d.suspect) (rows_of s.disk))

-- Who may hold the disk: the node itself or nobody does, or the node that does has been away.
abbrev pub may_mount : {F : Type 0} → Disk F → String → ℤ → ℤ → Bool
may_mount d node_id now grace_offline =
    if d.mounted_node_id == ""
    then true
    else if d.mounted_node_id == node_id
    then true
    else eligible_for_claim d node_id now grace_offline

abbrev pub mounted : {F : Type 0} → Disk F → String → ℤ → Disk F
mounted d node_id now = record d {
  mounted_node_id = node_id;
  online_seconds = accrue_online_seconds d.online_seconds d.last_seen_at now;
  last_seen_at = now;
}

abbrev claim_found :
    (fl : Float64) → String → String → ℤ → ℤ → Option (Disk fl.F) → StoreAction fl.F (Disk fl.F)
claim_found fl serial node_id now grace_offline none = raise (disk_not_found serial)
claim_found fl serial node_id now grace_offline (some d) = λ s.
    if may_mount d node_id now grace_offline
    then (save_disk fl (mounted d node_id now) >> pure (mounted d node_id now)) s
    else raise (disk_owned serial d.mounted_node_id) s

pub claim_or_touch_disk : (fl : Float64) → String → String → ℤ → ℤ → StoreAction fl.F (Disk fl.F)
unfolding save_disk
claim_or_touch_disk fl serial node_id now grace_offline = do
  found ← get_disk serial
  claim_found fl serial node_id now grace_offline found
