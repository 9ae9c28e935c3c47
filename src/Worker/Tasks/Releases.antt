-- ===== src/Worker/Tasks/Releases.antt =====
-- Releasing a source leaves the node's table of tasks as it is.
use immich_go_server.Prelude.{
  ℤ, pos, String, Bool, true, false, List, [], ◌∷◌, ok, err, leb_ℤ, Result, Triple-then, Post,
  Assoc, Bool-cases, inl, inr, lookup, retain, ◌==◌,
}
use immich_go_server.Model.{Asset}
use immich_go_server.Store.{Store, StoreError, TaskRow, delete_where, rows_of}
use immich_go_server.Store.Disks.{disk_root, get_disk}
use immich_go_server.Store.Replicas.{list_replicas, delete_replica, is_at}
use immich_go_server.Host.{Host, on_store}
use immich_go_server.Release.{
  safe_to_release, mark_safe, same_disk_root, release_bytes, release_each, release_local,
}
use immich_go_server.Worker.Tasks.Frame.{IsStill, HostStill, HostKeeps, query-Keeps, exec-Keeps}

module _ {F : Type 0} (T : Assoc TaskRow) where
  pub disk_root-IsStill :
      (disk : String) (s : Store F) → IsStill T s → IsStill T (disk_root disk s).1
  unfolding disk_root get_disk
  disk_root-IsStill disk s h = query-Keeps T (λ t. lookup disk t.disk) s h

  safe_to_release-IsStill :
      (min : ℤ) (asset_id src_disk : String) (s : Store F)
      → IsStill T s
      → IsStill T (safe_to_release min asset_id src_disk s).1
  unfolding safe_to_release list_replicas
  safe_to_release-IsStill min asset_id src_disk s h = elim (Bool-cases (leb_ℤ min (pos 1))) [
    | inl t ↦ rw t h
    | inr f ↦
        rw f (query-Keeps T (λ t. retain (λ r. r.asset_id == asset_id) (rows_of t.replica)) s h)
  ]

  pub mark_safe-IsStill :
      (min : ℤ) (src_disk : String) (assets : List Asset) (s : Store F)
      → IsStill T s
      → IsStill T (mark_safe min src_disk assets s).1
  unfolding mark_safe
  mark_safe-IsStill min src_disk [] s h = h
  mark_safe-IsStill min src_disk (a ∷ rest) s h =
      mark_safe-IsStill min src_disk rest (safe_to_release min a.asset_id src_disk s).1
        (safe_to_release-IsStill min a.asset_id src_disk s h)

  release_bytes-Keeps :
      (src_root src_disk dst_disk : String) (a : Asset)
      → HostKeeps T (release_bytes {F = F} src_root src_disk dst_disk a)
  unfolding release_bytes same_disk_root
  release_bytes-Keeps src_root src_disk dst_disk a = record {
    at = λ h k.
        disk_root-IsStill dst_disk (disk_root src_disk h.store).1
          (disk_root-IsStill src_disk h.store k);
  }

  lifted_store :
      {A : Type 0} (r : Result StoreError A × Store F) (h : Host F)
      → IsStill T r.1
      → Post {A = A} (λ _. HostStill T) (λ _. HostStill T) (on_store (λ _. r) h)
  lifted_store (ok a, s) h k = k
  lifted_store (err e, s) h k = k

  delete_replica-Keeps :
      (asset_id disk : String) → HostKeeps T (on_store {F = F} (delete_replica asset_id disk))
  unfolding delete_replica
  delete_replica-Keeps asset_id disk = record {
    at = λ h k. lifted_store (delete_replica asset_id disk h.store) h (
        exec-Keeps T (λ s. record s { replica = delete_where (is_at asset_id disk) s.replica })
          (λ s j. j) h.store k);
  }

  release_each-Keeps :
      (src_root src_disk dst_disk : String) (marked : List (Asset × Bool))
      → HostKeeps T (release_each {F = F} src_root src_disk dst_disk marked)
  unfolding release_each
  release_each-Keeps src_root src_disk dst_disk [] = record { at = λ h k. k }
  release_each-Keeps src_root src_disk dst_disk ((a, true) ∷ rest) =
      Triple-then (on_store (delete_replica a.asset_id src_disk)) _
        (delete_replica-Keeps a.asset_id src_disk)
        λ _.
          Triple-then (release_bytes src_root src_disk dst_disk a) _
            (release_bytes-Keeps src_root src_disk dst_disk a)
            λ _. release_each-Keeps src_root src_disk dst_disk rest
  release_each-Keeps src_root src_disk dst_disk ((a, false) ∷ rest) =
      release_each-Keeps src_root src_disk dst_disk rest

  pub release_local-Keeps :
      (min : ℤ) (src_disk dst_disk : String) (assets : List Asset)
      → HostKeeps T (release_local {F = F} min src_disk dst_disk assets)
  unfolding release_local
  release_local-Keeps min src_disk dst_disk assets = record {
    at = λ h k. (release_each-Keeps _ src_disk dst_disk _).at _ (
        disk_root-IsStill src_disk (mark_safe min src_disk assets h.store).1
          (mark_safe-IsStill min src_disk assets h.store k));
  }
