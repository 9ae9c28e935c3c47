-- ===== src/Store/Directories.antt =====
-- internal/store/store.go: the table `directory`, the placement of every directory as far as this node
-- knows. `now` is the result of `time.Now().Unix()`.
pub mod Newest
use immich_go_server.Prelude.{
  ℤ, pos, String, Bool, true, false, ◌&&◌, List, [], ◌∷◌, Option, none, some, if◌then◌else◌, ltb_ℤ,
  eqb_ℤ, ◌==◌, Assoc, lookup, Action, ◌>>=◌,
}
use immich_go_server.Model.{Directory}
use immich_go_server.Store.{
  Store, StoreAction, exec, query, upsert, adjust, rows_of, delete_where, faulty, called,
  engine_failed,
}

module _ {F : Type 0} where
  -- `LastEvalAt` as it is written.
  abbrev pub stamped : ℤ → Directory F → Directory F
  stamped now dir =
      if eqb_ℤ dir.last_eval_at (pos 0) then record dir { last_eval_at = now } else dir

  -- `WHERE excluded.last_eval_at > directory.last_eval_at`
  abbrev pub newer : Directory F → Directory F → Directory F
  newer dir old = if ltb_ℤ old.last_eval_at dir.last_eval_at then dir else old

  unfoldable pub save_directory : ℤ → Directory F → StoreAction F Unit
  save_directory now dir = exec (λ s. record s {
    directory = upsert dir.dir_key (stamped now dir) (newer (stamped now dir)) s.directory;
  })

  unfoldable pub get_directory : String → StoreAction F (Option (Directory F))
  get_directory dir_key = query (λ s. lookup dir_key s.directory)

  unfoldable pub list_directories : StoreAction F (List (Directory F))
  list_directories = query (λ s. rows_of s.directory)

  pub update_directory_disk : String → String → StoreAction F Unit
  update_directory_disk dir_key disk_serial = exec λ s. record s {
    directory = adjust dir_key (λ d. record d { disk_serial = disk_serial }) s.directory;
  }

  abbrev pub is_own : String → String → Directory F → Bool
  is_own dir_key node_id d = d.dir_key == dir_key && d.node_id == node_id

  unfoldable pub relinquish_directory : String → StoreAction F Unit
  relinquish_directory dir_key =
      exec (λ s. record s { directory = delete_where (is_own dir_key s.node_id) s.directory })
