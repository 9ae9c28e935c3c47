-- ===== src/Api/Rehost.antt =====
-- What giving up a directory removes.
use immich_go_server.Prelude.{
  String, ◌≡◌, ◌≢◌, refl, sym, inl, inr, false, not, ◌||◌, ◌&&◌, retain-true, some, arith, ◌==◌,
  eq_iff, retain, Bool-cases,
}
use immich_go_server.Store.{Store, working, rows_of}
use immich_go_server.Store.Rows.{rows_of-delete_where}
use immich_go_server.Store.Directories.{relinquish_directory, is_own}
use immich_go_server.Api.{handle_rehost_directory}

module _ {F : Type 0} where
  relinquish_rows :
      (dir_key : String) (s : Store F)
      → rows_of (relinquish_directory dir_key (working s)).1.directory
        ≡ retain (λ d. not (is_own dir_key s.node_id d)) (rows_of s.directory)
  unfolding relinquish_directory
  relinquish_rows dir_key s = rows_of-delete_where (is_own dir_key s.node_id) s.directory

  -- A complete request, while the engine works, is answered with 200. On the node that it names it removes
  -- the node's own record of the directory, and on any other node it changes nothing: a record that
  -- another node has taken over is never removed.
  pub handle_rehost_directory_rows :
      (s : Store F) (dir_key node : String)
      → dir_key ≢ ""
      → node ≢ ""
      → ((handle_rehost_directory s.node_id "POST" (some (dir_key, node)) (working s)).0 ≡ 200)
        × (rows_of
              (handle_rehost_directory s.node_id "POST"
                (some (dir_key, node))
                (working s)).1.directory
            ≡ retain
                (λ d. not (node == s.node_id && (d.dir_key == dir_key && d.node_id == s.node_id)))
                (rows_of s.directory))
  unfolding handle_rehost_directory relinquish_directory
  handle_rehost_directory_rows s dir_key node key_given node_given =
      let complete : (dir_key == "" || node == "") ≡ false =
        ground (arith, key_given, node_given, eq_iff dir_key "", eq_iff node "") in
      elim (Bool-cases (node == s.node_id)) [
        | inl here ↦ rw (complete, here) (refl, relinquish_rows dir_key s)
        | inr other ↦ rw (complete, other) (refl, sym (retain-true (rows_of s.directory)))
      ]
