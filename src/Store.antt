-- ===== src/Store.antt =====
-- internal/store/store.go: the SQLite database of one node, its tables as association lists on
-- their primary keys. Every statement is one call of the engine, which may fail; `faults` says for
-- the calls to come whether they do (a call past its end succeeds), and a failing call changes
-- nothing. A scan gives the rows in the order in which they were inserted. An error in the middle of
-- a scan, which the code does not ask for, is not modelled.
pub mod Rows
pub mod Tests
pub mod Disks
pub mod Replicas
pub mod Directories
pub mod Tasks
pub mod Assets
pub mod Uploads
pub mod Views
pub mod Schema
use immich_go_server.Prelude.{
  ℕ, ℤ, String, Bool, true, false, List, [], ◌∷◌, Option, none, some, if◌then◌else◌, Assoc, lookup,
  insert, Result, ok, err, Action,
}
use immich_go_server.Model.{Disk, Directory, Asset, Replica, AssetMeta, Task}

pub record NodeRow (F : Type 0) : Type 0 where
  pub node_id : String
  pub node_url : String
  pub battery_level : ℤ
  pub online_score : F

pub record TaskRow : Type 0 where
  pub task : Task
  pub created_at : ℤ

pub record DeviceAsset : Type 0 where
  pub device_id : String
  pub device_asset_id : String
  pub asset_id : String

-- `node_id` is the id of the node that the store belongs to.
pub record Store (F : Type 0) : Type 0 where
  pub node_id : String
  pub disk : Assoc (Disk F)
  pub node : Assoc (NodeRow F)
  pub replica : Assoc Replica
  pub directory : Assoc (Directory F)
  pub asset : Assoc Asset
  pub task : Assoc TaskRow
  pub server_config : Assoc String
  pub asset_meta : Assoc AssetMeta
  pub device_asset : List DeviceAsset
  pub faults : List Bool

-- What the operations return as `error`.
pub data StoreError : Type 0 where
  engine_failed : StoreError
  disk_not_found : String → StoreError
  disk_owned : String → String → StoreError

abbrev pub StoreAction : Type 0 → Type 0 → Type 0
StoreAction F A = Action StoreError (Store F) A

abbrev pub faulty : List Bool → Bool
faulty [] = false
faulty (b ∷ _) = b

abbrev later : List Bool → List Bool
later [] = []
later (_ ∷ bs) = bs

module _ {F : Type 0} where
  abbrev pub called : Store F → Store F
  called s = record s { faults = later s.faults }

  -- The store while its engine does not fail.
  abbrev pub working : Store F → Store F
  working s = record s { faults = [] }

  -- `db.Exec`
  abbrev pub exec : (Store F → Store F) → StoreAction F Unit
  exec f s = elim (faulty s.faults) [
    | true ↦ (err engine_failed, called s)
    | false ↦ (ok tt, f (called s))
  ]

  -- `db.Query` and the reading of its rows
  abbrev pub query : {A : Type 0} → (Store F → A) → StoreAction F A
  query f s = elim (faulty s.faults) [
    | true ↦ (err engine_failed, called s)
    | false ↦ (ok (f s), called s)
  ]

module _ {V : Type 0} where
  abbrev upserted : String → V → (V → V) → Assoc V → Option V → Assoc V
  upserted k new onto rows none = insert k new rows
  upserted k new onto rows (some old) = insert k (onto old) rows

  -- `INSERT … ON CONFLICT(k) DO UPDATE`: `onto` is what becomes of the row that is there.
  abbrev pub upsert : String → V → (V → V) → Assoc V → Assoc V
  upsert k new onto rows = upserted k new onto rows (lookup k rows)

  abbrev adjusted : String → (V → V) → Assoc V → Option V → Assoc V
  adjusted k f rows none = rows
  adjusted k f rows (some old) = insert k (f old) rows

  -- `UPDATE … WHERE k=?`
  abbrev pub adjust : String → (V → V) → Assoc V → Assoc V
  adjust k f rows = adjusted k f rows (lookup k rows)

  -- `SELECT` without a condition
  abbrev pub rows_of : Assoc V → List V
  rows_of [] = []
  rows_of ((k, v) ∷ rows) = v ∷ rows_of rows

  -- `DELETE … WHERE p`
  abbrev pub delete_where : (V → Bool) → Assoc V → Assoc V
  delete_where p [] = []
  delete_where p ((k, v) ∷ rows) =
      let rest = delete_where p rows in if p v then rest else (k, v) ∷ rest
