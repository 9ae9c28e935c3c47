-- ===== src/Media/Upload/Served.antt =====
-- An upload, and what is served of it.
use immich_go_server.Prelude.{
  ℕ, ℤ, pos, String, ◌≡◌, ◌≢◌, refl, ap, ◌∙◌, inl, inr, false, List, [], ◌∷◌, ◌++◌, none, some,
  arith, ◌==◌, eq_refl, eq_iff, Assoc, lookup, insert, lookup-insert_self, retain, retain-append,
  length, Bool-cases, ok,
}
use immich_go_server.Float64.{Float64}
use immich_go_server.Model.{Asset, Replica, Disk}
use immich_go_server.Store.{Store, query, working, upsert, rows_of}
use immich_go_server.Store.Disks.{list_mounted_disks, disk_root, get_disk}
use immich_go_server.Store.Replicas.{list_replicas, replica_id, replica_onto}
use immich_go_server.Store.Assets.{
  get_asset, lookup_device_assets, save_asset_meta, save_device_asset, asset_onto,
}
use immich_go_server.Store.Uploads.Saving.{uploaded_replica, save_uploaded_asset_ok}
use immich_go_server.Host.{Host, BlobFile, find_file}
use immich_go_server.Media.{
  Formats, Faults, UploadRequest, Library, answer, serve_asset_bytes, root_of_asset,
}
use immich_go_server.Media.Upload.{
  has_device, duplicate_of, choose_target, put_file, asset_of, enter_upload, written, with_file,
  upload_asset,
}

abbrev pub no_faults : Faults
no_faults = record { mkdir_fails = false; write_fails = none; meta_fails = false }

found_self :
    (root dir_key id : String) (bytes : List ℕ) (files : List BlobFile)
    → find_file root dir_key id (put_file root dir_key id bytes files) ≡ some bytes
found_self root dir_key id bytes files = rw (eq_refl root, eq_refl dir_key, eq_refl id) refl

rows_added :
    (k : String) (r : Replica) (rows : Assoc Replica)
    → lookup k rows ≡ none
    → rows_of (insert k r rows) ≡ rows_of rows ++ r ∷ []
unfolding lookup insert
rows_added k r [] h = refl
rows_added k r ((name, old) ∷ rows) h = elim (Bool-cases (name == k)) [
  | inl t ↦ let gone : some old ≡ none = rw t at h in cc
  | inr n ↦ rw n (ap (λ l. old ∷ l) (rows_added k r rows (rw n at h)))
]

module _ {F : Type 0} where
  pub query_state : {A : Type 0} (f : Store F → A) (s : Store F) → s.faults ≡ [] → (query f s).1 ≡ s
  query_state f s works = rw works refl

  root_elsewhere :
      (serial : String) (s t : Store F)
      → s.faults ≡ []
      → t.faults ≡ []
      → t.disk ≡ s.disk
      → (disk_root serial t).0 ≡ (disk_root serial s).0
  unfolding disk_root get_disk
  root_elsewhere serial s t works works' same = rw (works, works', same) refl

  get_asset_found :
      (id : String) (a : Asset) (s : Store F)
      → s.faults ≡ []
      → lookup id s.asset ≡ some a
      → get_asset id s ≡ (ok (some a), s)
  unfolding get_asset
  get_asset_found id a s works found = rw (works, found) refl

  mounted_state :
      (node_id : String) (s : Store F) → s.faults ≡ [] → (list_mounted_disks node_id s).1 ≡ s
  unfolding list_mounted_disks
  mounted_state node_id s works = rw works refl

  root_state : (serial : String) (s : Store F) → s.faults ≡ [] → (disk_root serial s).1 ≡ s
  unfolding disk_root get_disk
  root_state serial s works = rw works refl

  target_lem :
      (node_id blob_root root : String) (d : Disk F) (ds : List (Disk F)) (s : Store F)
      → s.faults ≡ []
      → (list_mounted_disks node_id s).0 ≡ ok (d ∷ ds)
      → (disk_root d.disk_serial s).0 ≡ some root
      → choose_target node_id blob_root s ≡ ((d.disk_serial, root), s)
  target_lem node_id blob_root root d ds s works listed rooted =
      let same : (list_mounted_disks node_id s).1 ≡ s = mounted_state node_id s works in
      rw (listed, same, rooted, root_state d.disk_serial s works) refl

  pub duplicate_state : (u : UploadRequest) (s : Store F) → s.faults ≡ [] → (duplicate_of u s).1 ≡ s
  unfolding lookup_device_assets
  duplicate_state u s works = elim (Bool-cases (has_device u)) [
    | inl t ↦ rw (t, works) refl
    | inr f ↦ rw f refl
  ]

module _ (fl : Float64) (formats : Formats) (node_id : String) (now : ℤ) where
  -- The disk with the most room on the node, and where its files are.
  pub record IsTarget (serial root : String) (s : Store fl.F) : Type 0 where
    pub disk : Disk fl.F
    pub others : List (Disk fl.F)
    pub most_room : (list_mounted_disks node_id s).0 ≡ ok (disk ∷ others)
    pub is_serial : disk.disk_serial ≡ serial
    pub rooted : (disk_root serial s).0 ≡ some root
    pub named : serial ≢ ""
    pub root_named : root ≢ ""

  -- Nothing is known of the asset yet.
  pub record IsNew (id serial : String) (s : Store fl.F) : Type 0 where
    pub no_row : lookup id s.asset ≡ none
    pub no_replica : lookup (replica_id id serial) s.replica ≡ none
    pub no_replicas : retain (λ r. r.asset_id == id) (rows_of s.replica) ≡ []

  chosen :
      (serial root blob_root : String) (s : Store fl.F)
      → s.faults ≡ []
      → IsTarget serial root s
      → choose_target node_id blob_root s ≡ ((serial, root), s)
  chosen serial root blob_root s works t =
      target_lem node_id blob_root root t.disk t.others s works t.most_room
        (ap (λ k. (disk_root k s).0) t.is_serial ∙ t.rooted)
      ∙ ap (λ k. ((k, root), s)) t.is_serial

  pub upload_written :
      (u : UploadRequest) (bytes : List ℕ) (serial root : String) (lib : Library fl.F)
      → u.asset_data ≡ some bytes
      → lib.host.store.faults ≡ []
      → (duplicate_of u lib.host.store).0 ≡ none
      → IsTarget serial root lib.host.store
      → upload_asset fl formats node_id now no_faults u lib
        ≡ written fl formats node_id now u bytes serial root
            (with_file fl formats node_id now u bytes root lib)
  unfolding upload_asset
  upload_written u bytes serial root lib given works new target =
      let placed : (root == "") ≡ false = ground (arith, target.root_named, eq_iff root "") in
      rw
        (
          given,
          new,
          duplicate_state u lib.host.store works,
          chosen serial root lib.host.blob_root lib.host.store works target,
          placed,
        )
        refl

  -- What the tables of the assets, the replicas and the disks are after the upload has been entered.
  pub record IsEntered (a : Asset) (serial : String) (before after : Store fl.F) : Type 0 where
    pub asset_row : after.asset ≡ upsert a.asset_id a (asset_onto a) before.asset
    pub replica_row :
        after.replica
        ≡ upsert
            (replica_id a.asset_id serial)
            (uploaded_replica fl a serial before.node_id)
            (replica_onto (uploaded_replica fl a serial before.node_id))
            before.replica
    pub same_disks : after.disk ≡ before.disk
    pub still_works : after.faults ≡ []

  pub enter_upload_ok :
      (u : UploadRequest) (bytes : List ℕ) (serial : String) (s : Store fl.F)
      → serial ≢ ""
      → s.faults ≡ []
      → ((enter_upload fl formats node_id now u bytes serial s).0 ≡ ok tt)
        × IsEntered
            (asset_of fl formats node_id now u bytes)
            serial
            s
            (enter_upload fl formats node_id now u bytes serial s).1
  unfolding save_asset_meta save_device_asset
  enter_upload_ok u bytes serial s named works =
      let (good, saved) =
        save_uploaded_asset_ok fl now (asset_of fl formats node_id now u bytes) serial
          (pos (length bytes)) s named works in
      elim (Bool-cases (has_device u)) [
        | inl t ↦
            rw (good, saved.still_works, t)
              (
                refl,
                record {
                  asset_row = saved.asset_row;
                  replica_row = saved.replica_row;
                  same_disks = saved.same_disks;
                  still_works = refl;
                },
              )
        | inr f ↦
            rw (good, saved.still_works, f)
              (
                refl,
                record {
                  asset_row = saved.asset_row;
                  replica_row = saved.replica_row;
                  same_disks = saved.same_disks;
                  still_works = refl;
                },
              )
      ]

  module _ (a : Asset) (serial root : String) (before : Store fl.F) (works : before.faults ≡ [])
      (new : IsNew a.asset_id serial before) (target : IsTarget serial root before) where
    abbrev replica : Replica
    replica = uploaded_replica fl a serial before.node_id

    entered_asset :
        (s : Store fl.F) → IsEntered a serial before s → lookup a.asset_id s.asset ≡ some a
    entered_asset s e =
        ap (lookup a.asset_id) e.asset_row
        ∙ rw (new.no_row) (lookup-insert_self a.asset_id a before.asset)

    entered_replicas :
        (s : Store fl.F)
        → IsEntered a serial before s
        → retain (λ r. r.asset_id == a.asset_id) (rows_of s.replica) ≡ replica ∷ []
    entered_replicas s e =
        ap (λ t. retain (λ r. r.asset_id == a.asset_id) (rows_of t)) e.replica_row
        ∙ rw (new.no_replica) (
            ap (retain (λ r. r.asset_id == a.asset_id))
              (rows_added (replica_id a.asset_id serial) replica before.replica new.no_replica)
            ∙ retain-append (λ r. r.asset_id == a.asset_id) (rows_of before.replica) (replica ∷ [])
            ∙ rw (new.no_replicas, eq_refl a.asset_id) refl)

    root_entered :
        (blob_root : String) (s : Store fl.F)
        → IsEntered a serial before s
        → (root_of_asset blob_root a.asset_id s).0 ≡ root
    unfolding list_replicas
    root_entered blob_root s e =
        let there : (disk_root serial (working s)).0 ≡ some root =
          root_elsewhere serial before (working s) works refl e.same_disks ∙ target.rooted in
        rw (e.still_works, entered_replicas s e, there) refl

    serve_entered :
        (bytes : List ℕ) (h : Host fl.F)
        → IsEntered a serial before h.store
        → find_file root a.dir_key a.asset_id h.files ≡ some bytes
        → (serve_asset_bytes a.asset_id h).0 ≡ answer 200 bytes
    unfolding serve_asset_bytes
    serve_entered bytes h e there =
        let placed : (root == "") ≡ false = ground (arith, target.root_named, eq_iff root "") in
        rw
          (
            get_asset_found a.asset_id a h.store e.still_works (entered_asset h.store e),
            root_entered h.blob_root h.store e,
            placed,
            there,
          )
          refl

  -- While the database and the disks work, an upload of new content, under device ids that are not known yet,
  -- to a node with a disk for it is answered with 201 and the checksum as the id, and then the bytes that are
  -- served for this id are those that were uploaded.
  pub upload_asset-serve_asset_bytes :
      (u : UploadRequest) (bytes : List ℕ) (serial root : String) (lib : Library fl.F)
      → u.asset_data ≡ some bytes
      → lib.host.store.faults ≡ []
      → (duplicate_of u lib.host.store).0 ≡ none
      → IsNew (formats.checksum bytes) serial lib.host.store
      → IsTarget serial root lib.host.store
      → ((upload_asset fl formats node_id now no_faults u lib).0
          ≡ answer 201 (formats.checksum bytes, false))
        × ((serve_asset_bytes
              (formats.checksum bytes)
              (upload_asset fl formats node_id now no_faults u lib).1.host).0
            ≡ answer 200 bytes)
  upload_asset-serve_asset_bytes u bytes serial root lib given works fresh new target =
      let a = asset_of fl formats node_id now u bytes in
      let step = upload_written u bytes serial root lib given works fresh target in
      let (good, entered) = enter_upload_ok u bytes serial lib.host.store target.named works in
      let after =
        (written fl formats node_id now u bytes serial root
          (with_file fl formats node_id now u bytes root lib)).1 in
      (
        ap (λ r. r.0) step ∙ rw good refl,
        ap (λ r. (serve_asset_bytes a.asset_id r.1.host).0) step
            ∙ serve_entered a serial root lib.host.store works new target bytes after.host entered
                (found_self root a.dir_key a.asset_id bytes lib.host.files),
      )
