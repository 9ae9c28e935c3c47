-- ===== src/Store/Replicas.antt =====
-- internal/store/store.go: the table `replica`.
use immich_go_server.Prelude.{
  ℕ, String, Bool, false, not, ◌&&◌, List, Option, none, some, length, ◌==◌, concat, lookup, retain,
  Result, ok, err,
}
use immich_go_server.Model.{Disk, Replica}
use immich_go_server.Store.{
  Store, StoreAction, StoreError, exec, query, upsert, rows_of, delete_where,
}

abbrev pub replica_id : String → String → String
replica_id asset_id disk_serial = concat asset_id (concat "@" disk_serial)

abbrev pub replica_onto : Replica → Replica → Replica
replica_onto r old = record old { checksum = r.checksum; status = r.status }

abbrev pub is_at : String → String → Replica → Bool
is_at asset_id disk_serial r = r.asset_id == asset_id && r.disk_serial == disk_serial

abbrev healthy_disk : {F : Type 0} → Option (Disk F) → Bool
healthy_disk none = false
healthy_disk (some d) = not d.suspect

abbrev count_or_zero : Result StoreError ℕ → ℕ
count_or_zero (ok n) = n
count_or_zero (err _) = 0

module _ {F : Type 0} where
  unfoldable pub add_replica : Replica → StoreAction F Unit
  add_replica r =
      exec (λ s. record s { replica = upsert r.replica_id r (replica_onto r) s.replica })

  pub register_replica : String → String → String → StoreAction F Unit
  register_replica asset_id disk_serial checksum s =
      add_replica
        (record {
          replica_id = replica_id asset_id disk_serial;
          asset_id = asset_id;
          disk_serial = disk_serial;
          node_id = s.node_id;
          checksum = checksum;
          status = "PENDING";
        })
        s

  unfoldable pub list_replicas : String → StoreAction F (List Replica)
  list_replicas asset_id = query (λ s. retain (λ r. r.asset_id == asset_id) (rows_of s.replica))

  -- The join keeps the replicas of the asset whose disk has a row that is not suspect.
  abbrev pub effective : Store F → String → List Replica
  effective s asset_id =
      retain (λ r. r.asset_id == asset_id && healthy_disk (lookup r.disk_serial s.disk))
        (rows_of s.replica)

  unfoldable pub count_healthy_replicas : String → StoreAction F ℕ
  count_healthy_replicas asset_id = query (λ s. length (effective s asset_id))

  unfoldable pub replica_count : String → Store F → ℕ × Store F
  replica_count asset_id s =
      let (r, s') = count_healthy_replicas asset_id s in (count_or_zero r, s')

  unfoldable pub delete_replica : String → String → StoreAction F Unit
  delete_replica asset_id disk_serial =
      exec (λ s. record s { replica = delete_where (is_at asset_id disk_serial) s.replica })
