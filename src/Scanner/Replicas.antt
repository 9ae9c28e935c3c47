-- ===== src/Scanner/Replicas.antt =====
-- Which replicas a scan enters.
use mathlib.Core.List.{Memᴰ}
use immich_go_server.Prelude.{
  ℤ, pos, String, ◌≡◌, refl, sym, ap, ◌∙◌, inl, inr, ◌⊎◌, true, List, [], ◌∷◌, some, arith,
  if◌then◌else◌, add64, ◌==◌, eq_iff, lookup, Bool-cases, Result, ok, err, Post, Triple,
  Triple-bind, Triple-then,
}
use immich_go_server.Float64.{Float64}
use immich_go_server.Model.{Replica, Directory}
use immich_go_server.Store.{Store, StoreError, StoreAction, upsert, faulty}
use immich_go_server.Store.Rows.{lookup-upsert}
use immich_go_server.Store.Disks.{get_disk}
use immich_go_server.Store.Replicas.{add_replica, replica_onto, replica_id}
use immich_go_server.Store.Directories.{get_directory, save_directory}
use immich_go_server.Store.Assets.{save_asset}
use immich_go_server.Host.{Host, find_file}
use immich_go_server.Ingest.{MetaAsset}
use immich_go_server.Scanner.{
  ScanAction, ScanError, kept, stored, is_there, of_other, scanned_asset, scanned_replica,
  sync_assets, sync_directory, sync_dir,
}

module _ (fl : Float64) (today : ℤ × ℤ) (now : ℤ) (blob_root disk_serial node_id : String)
    (dir_key : String) (listed : List MetaAsset) (before : Host fl.F) where
  -- The replica was known, or it is that of a listed asset whose file is on the scanned disk.
  abbrev pub IsBacked : String → Type 0
  IsBacked k =
      ((old : Replica) × (lookup k before.store.replica ≡ some old))
      ⊎ ((a : MetaAsset) × Memᴰ a listed
          × (is_there (find_file blob_root dir_key a.asset_id before.files) ≡ true)
          × (replica_id a.asset_id disk_serial ≡ k))

  abbrev AllBacked : Host fl.F → Type 0
  AllBacked h =
      (h.files ≡ before.files)
      × ((k : String) (r : Replica) → lookup k h.store.replica ≡ some r → IsBacked k)

  abbrev Backs : {A : Type 0} → ScanAction fl.F A → Type 0
  Backs act = Triple AllBacked act (λ _. AllBacked) (λ _. AllBacked)

  kept-Backs :
      {A : Type 0} (h : Host fl.F) (r : Result StoreError A × Store fl.F)
      → AllBacked (record h { store = r.1 })
      → Post (λ _. AllBacked) (λ _. AllBacked) (kept h r)
  kept-Backs h (ok a, s) b = b
  kept-Backs h (err e, s) b = b

  stored-Backs :
      {A : Type 0} (act : StoreAction fl.F A)
      → ((h : Host fl.F) → AllBacked h → AllBacked (record h { store = (act h.store).1 }))
      → Backs (stored act)
  stored-Backs act f = record { at = λ h b. kept-Backs h (act h.store) (f h b) }

  same_replicas :
      (h : Host fl.F) (s : Store fl.F)
      → s.replica ≡ h.store.replica
      → AllBacked h
      → AllBacked (record h { store = s })
  same_replicas h s e (f, b) = (f, λ k r there. b k r (sym (ap (lookup k) e) ∙ there))

  add_replica_table :
      (r : Replica) (s : Store fl.F)
      → (add_replica r s).1.replica
        ≡ (if faulty s.faults then s.replica else upsert r.replica_id r (replica_onto r) s.replica)
  unfolding add_replica
  add_replica_table r s = ground arith

  add_replica-Backs :
      (a : MetaAsset)
      → Memᴰ a listed
      → (is_there (find_file blob_root dir_key a.asset_id before.files) ≡ true)
      → Backs (stored (add_replica (scanned_replica fl today now blob_root disk_serial node_id a)))
  add_replica-Backs a m there =
      stored-Backs (add_replica (scanned_replica fl today now blob_root disk_serial node_id a))
        λ h (f, b).
          let new = scanned_replica fl today now blob_root disk_serial node_id a in
          (
            f,
            λ k r found. elim (Bool-cases (faulty h.store.faults)) [
              | inl t ↦
                  b k r (sym (ap (lookup k) (add_replica_table new h.store) ∙ rw t refl) ∙ found)
              | inr n ↦ elim (Bool-cases (new.replica_id == k)) [
                | inl e ↦ inr (a, m, there, (eq_iff new.replica_id k).0 e)
                | inr d ↦ b k r (
                    sym (
                      ap (lookup k) (add_replica_table new h.store)
                      ∙ rw n (
                          lookup-upsert new.replica_id k new (replica_onto new) h.store.replica
                          ∙ rw d refl))
                    ∙ found)
              ]
            ],
          )

  save_asset-Backs :
      (dir : String) (a : MetaAsset)
      → Backs (stored (save_asset (scanned_asset fl today now blob_root disk_serial node_id dir a)))
  unfolding save_asset
  save_asset-Backs dir a =
      stored-Backs (save_asset (scanned_asset fl today now blob_root disk_serial node_id dir a))
        (λ h b.
          same_replicas h
            (save_asset (scanned_asset fl today now blob_root disk_serial node_id dir a) h.store).1
            (ground arith) b)

  sync_assets-Backs :
      (total : ℤ) (rest : List MetaAsset)
      → ((a : MetaAsset) → Memᴰ a rest → Memᴰ a listed)
      → Backs (sync_assets fl today now blob_root disk_serial node_id dir_key total rest)
  unfolding sync_assets
  sync_assets-Backs total [] inside = record { at = λ h b. b }
  sync_assets-Backs total (a ∷ rest) inside = record {
    at = λ h b. elim (Bool-cases (is_there (find_file blob_root dir_key a.asset_id h.files))) [
      | inl t ↦ rw t (
          (Triple-then _ _ (save_asset-Backs dir_key a) (λ _.
              Triple-then _ _ (add_replica-Backs a (inside a (Memᴰ.head refl)) (rw (b.0) at t))
                (λ _.
                  sync_assets-Backs (add64 total a.size_bytes) rest
                    (λ c m. inside c (Memᴰ.tail m))))).at
            h b)
      | inr n ↦ rw n ((sync_assets-Backs total rest (λ c m. inside c (Memᴰ.tail m))).at h b)
    ];
  }

  get_directory_replicas : (s : Store fl.F) → (get_directory dir_key s).1.replica ≡ s.replica
  unfolding get_directory
  get_directory_replicas s = ground arith

  get_disk_replicas : (s : Store fl.F) → (get_disk disk_serial s).1.replica ≡ s.replica
  unfolding get_disk
  get_disk_replicas s = ground arith

  save_directory-Backs : (d : Directory fl.F) → Backs (stored (save_directory now d))
  unfolding save_directory
  save_directory-Backs d =
      stored-Backs (save_directory now d)
        (λ h b. same_replicas h (save_directory now d h.store).1 (ground arith) b)

  sync_directory-Backs :
      (total : ℤ) → Backs (sync_directory fl today now blob_root disk_serial node_id dir_key total)
  unfolding sync_directory
  sync_directory-Backs total = record {
    at = λ h b.
        let s = (get_directory dir_key h.store).1 in
        let s' = (get_disk disk_serial s).1 in
        elim (Bool-cases
          (of_other fl today now blob_root disk_serial node_id (get_directory dir_key h.store).0)) [
            | inl t ↦ rw t (same_replicas h s (get_directory_replicas h.store) b)
            | inr n ↦ rw n (
                (save_directory-Backs _).at (record h { store = s' })
                  (same_replicas h s' (get_disk_replicas s ∙ get_directory_replicas h.store) b))
          ];
  }

  sync_dir-Backs :
      (l : List MetaAsset)
      → ((a : MetaAsset) → Memᴰ a l → Memᴰ a listed)
      → Backs (sync_dir fl today now blob_root disk_serial node_id dir_key (some l))
  unfolding sync_dir
  sync_dir-Backs [] inside = record { at = λ h b. b }
  sync_dir-Backs (a ∷ rest) inside =
      Triple-bind _ _ (sync_assets-Backs (pos 0) (a ∷ rest) inside)
        (λ total. sync_directory-Backs total)

  ended :
      {A : Type 0} (r : Result ScanError A × Host fl.F)
      → Post (λ _. AllBacked) (λ _. AllBacked) r
      → AllBacked r.1
  ended (ok a, h) b = b
  ended (err e, h) b = b

  -- Whatever statements fail: a replica that the database has after a scan was there before, or a sidecar
  -- lists its asset and the file of the asset is on the scanned disk.
  pub sync_dir-IsBacked :
      (k : String) (r : Replica)
      → lookup k
          (sync_dir fl today now blob_root disk_serial node_id dir_key
            (some listed)
            before).1.store.replica
        ≡ some r
      → IsBacked k
  sync_dir-IsBacked k r found =
      (ended _
          ((sync_dir-Backs listed (λ a m. m)).at before (refl, λ j old there. inl (old, there)))).1
        k r found
