-- ===== src/Drive/Claiming.antt =====
-- What `claimDisk` leaves of the holder and of the time online of a disk.
use immich_go_server.Prelude.{
  ℤ, pos, negsuc, String, ◌≡◌, ◌≢◌, refl, sym, ap, subst, ◌∙◌, inl, inr, true, false, Option, none,
  some, arith, ◌==◌, lookup, lookup-insert_self, Option-cases, eq_iff, Result, ok, ◌>>=◌, ◌>>◌, [],
  sub64, add64, wrap, ◌-ℤ◌, ◌+ℤ◌,
}
use immich_go_server.Float64.{Float64}
use immich_go_server.Model.{Disk}
use immich_go_server.Claim.{accrue_online_seconds}
use immich_go_server.Store.{Store, StoreError, working}
use immich_go_server.Store.Disks.{save_disk, update_space, may_mount, mounted, claim_or_touch_disk}
use immich_go_server.Store.Disks.Claims.{claimed, claim_or_touch_disk_lem}
use immich_go_server.Drive.{
  Drives, claim_failed, save_failed, in_store, DiskIdFile, DiskStatsFile, disk_of, collect_space,
  stats_or_new, renewed, claim_disk, read_or_create_disk_id, read_disk_stats, write_disk_stats,
}

accrue_none : (now : ℤ) → accrue_online_seconds (pos 0) now now ≡ pos 0
unfolding accrue_online_seconds sub64 add64 wrap ◌-ℤ◌ ◌+ℤ◌
accrue_none (pos n) = ground arith
accrue_none (negsuc n) = ground arith

-- A row that nobody holds, last seen at `now` and never online.
abbrev IsLoose : {F : Type 0} → String → ℤ → Disk F → Type 0
IsLoose serial now d =
    (d.disk_serial ≡ serial)
    × (d.mounted_node_id ≡ "")
    × (d.online_seconds ≡ pos 0)
    × (d.last_seen_at ≡ now)

abbrev HasLoose : {F : Type 0} → String → ℤ → Store F → Type 0
HasLoose {F} serial now s = (d : Disk F) × (lookup serial s.disk ≡ some d) × IsLoose serial now d

module _ (fl : Float64) (s : Store fl.F) (d : Disk fl.F) (now : ℤ)
    (keyed : (old : Disk fl.F)
      → lookup d.disk_serial s.disk ≡ some old
      → old.disk_serial ≡ d.disk_serial) where
  save_disk-loose :
      d.mounted_node_id ≡ ""
      → d.online_seconds ≡ pos 0
      → d.last_seen_at ≡ now
      → HasLoose d.disk_serial now (save_disk fl d (working s)).1
  unfolding save_disk
  save_disk-loose free none_yet seen = elim (Option-cases (lookup d.disk_serial s.disk)) [
    | inl e ↦ rw e (_, lookup-insert_self d.disk_serial _ s.disk, (refl, free, none_yet, seen))
    | inr (old, e) ↦
        rw e (_, lookup-insert_self d.disk_serial _ s.disk, (keyed old e, free, none_yet, seen))
  ]

module _ {F : Type 0} (s : Store F) (serial : String) (now : ℤ) where
  update_space-loose :
      (free total : ℤ)
      → HasLoose serial now s
      → HasLoose serial now (update_space serial free total (working s)).1
  unfolding update_space
  update_space-loose free total (d, there, loose) =
      rw there (_, lookup-insert_self serial _ s.disk, loose)

-- The disk is mounted on the node, and was never online.
abbrev IsHeldAnew : {F : Type 0} → String → String → ℤ → Disk F → Type 0
IsHeldAnew serial node_id now d =
    (d.disk_serial ≡ serial)
    × (d.mounted_node_id ≡ node_id)
    × (d.online_seconds ≡ pos 0)
    × (d.last_seen_at ≡ now)

abbrev Claims : {F : Type 0} → String → String → ℤ → Result StoreError (Disk F) × Store F → Type 0
Claims {F} serial node_id now r =
    (d : Disk F) × (r ≡ (ok d, r.1))
    × (lookup serial r.1.disk ≡ some d)
    × IsHeldAnew serial node_id now d

module _ (fl : Float64) (s : Store fl.F) (serial : String) (now : ℤ) where
  loose-may_mount :
      (d : Disk fl.F) (node_id : String) (grace : ℤ)
      → IsLoose serial now d
      → may_mount d node_id now grace ≡ true
  loose-may_mount d node_id grace (same, free, none_yet, seen) = rw free refl

  loose-mounted :
      (d : Disk fl.F) (node_id : String)
      → IsLoose serial now d
      → IsHeldAnew serial node_id now (mounted d node_id now)
  loose-mounted d node_id (same, free, none_yet, seen) =
      (same, refl, rw (none_yet, seen) (accrue_none now), refl)

  claim_loose_ok :
      (node_id : String) (grace : ℤ) (d : Disk fl.F)
      → lookup serial s.disk ≡ some d
      → IsLoose serial now d
      → claim_or_touch_disk fl serial node_id now grace (working s)
        ≡ (ok (mounted d node_id now), claimed fl s d node_id now)
  claim_loose_ok node_id grace d there loose =
      ap (λ k. claim_or_touch_disk fl k node_id now grace (working s)) (sym loose.0)
      ∙ claim_or_touch_disk_lem fl s d (ap (λ k. lookup k s.disk) loose.0 ∙ there) node_id now grace
      ∙ rw (loose-may_mount d node_id grace loose) refl

  claim-loose :
      (node_id : String) (grace : ℤ)
      → HasLoose serial now s
      → Claims serial node_id now (claim_or_touch_disk fl serial node_id now grace (working s))
  claim-loose node_id grace (d, there, loose) =
      subst (Claims serial node_id now) (sym (claim_loose_ok node_id grace d there loose)) (
        mounted d node_id now,
        refl,
        (ap (λ k. lookup k (claimed fl s d node_id now).disk) (sym loose.0)
            ∙ lookup-insert_self d.disk_serial (mounted d node_id now) s.disk),
        loose-mounted d node_id loose,
      )

-- The drives while the database and the files of the disks work.
abbrev pub calm : {F : Type 0} → Drives F → Drives F
calm x = record x { store = working x.store; outcomes = [] }

-- What a claim of the disk in the directory `dir` leaves behind.
abbrev pub IsReset : {F : Type 0} → String → String → String → ℤ → Drives F → Type 0
IsReset {F} serial dir node_id now x =
    ((d : Disk F) × (lookup serial x.store.disk ≡ some d) × IsHeldAnew serial node_id now d)
    × ((f : DiskStatsFile) × (lookup dir x.stats ≡ some (some f))
        × (f.online_seconds ≡ pos 0)
        × (f.last_tick_at ≡ now))

module _ (fl : Float64) (new_id : String) (now_milli : ℤ) (space : String → Option (ℤ × ℤ)) where
  -- The claim from the saved row on.
  ends :
      (x : Drives fl.F) (serial dir node_id : String) (now grace : ℤ) (stats : DiskStatsFile)
      → HasLoose serial now x.store
      → let r =
          (do
            claimed ← in_store claim_failed (claim_or_touch_disk fl serial node_id now grace)
            write_disk_stats dir (renewed fl new_id now_milli space stats claimed now))
            (calm x) in
        (r.0 ≡ ok tt) × IsReset serial dir node_id now r.1
  unfolding write_disk_stats
  ends x serial dir node_id now grace stats h =
      let (d, good, there, held) = claim-loose fl x.store serial now node_id grace h in
      rw good (
        refl,
        (
          (d, there, held),
          (
            renewed fl new_id now_milli space stats d now,
            lookup-insert_self dir _ x.stats,
            held.2,
            refl,
          ),
        ),
      )

  spaced :
      (x : Drives fl.F) (serial dir node_id : String) (now grace : ℤ) (stats : DiskStatsFile)
      (room : Option (ℤ × ℤ))
      → HasLoose serial now x.store
      → let r =
          (do
            collect_space fl new_id now_milli space serial room
            claimed ← in_store claim_failed (claim_or_touch_disk fl serial node_id now grace)
            write_disk_stats dir (renewed fl new_id now_milli space stats claimed now))
            (calm x) in
        (r.0 ≡ ok tt) × IsReset serial dir node_id now r.1
  unfolding update_space
  spaced x serial dir node_id now grace stats none h = ends x serial dir node_id now grace stats h
  spaced x serial dir node_id now grace stats (some (free, total)) h =
      ends (record x { store = (update_space serial free total (working x.store)).1 }) serial dir
        node_id now grace stats (update_space-loose x.store serial now free total h)

  saved :
      (x : Drives fl.F) (id_file : DiskIdFile) (dir node_id : String) (now grace : ℤ)
      (stats : DiskStatsFile)
      → ((old : Disk fl.F)
          → lookup id_file.disk_id x.store.disk ≡ some old
          → old.disk_serial ≡ id_file.disk_id)
      → let r =
          (do
            in_store save_failed
                (save_disk fl (disk_of fl new_id now_milli space id_file stats dir now))
            collect_space fl new_id now_milli space id_file.disk_id (space dir)
            claimed ←
                in_store claim_failed (claim_or_touch_disk fl id_file.disk_id node_id now grace)
            write_disk_stats dir (renewed fl new_id now_milli space stats claimed now))
            (calm x) in
        (r.0 ≡ ok tt) × IsReset id_file.disk_id dir node_id now r.1
  unfolding save_disk
  saved x id_file dir node_id now grace stats keyed =
      let disk = disk_of fl new_id now_milli space id_file stats dir now in
      spaced (record x { store = (save_disk fl disk (working x.store)).1 }) id_file.disk_id dir
        node_id now grace stats (space dir)
        (save_disk-loose fl x.store disk now keyed refl refl refl)

  -- While the database and the files of the disks work, the claim of a disk that has an identity and no broken
  -- statistics succeeds whoever holds the disk and however recently it was seen: the node gets it, and
  -- both its row and its statistics then say that it has been online for 0 seconds.
  pub claim_disk-IsReset :
      (x : Drives fl.F) (id_file : DiskIdFile) (dir node_id : String) (now grace : ℤ)
      → lookup dir x.ids ≡ some id_file
      → id_file.disk_id ≢ ""
      → lookup dir x.stats ≢ some none
      → ((old : Disk fl.F)
          → lookup id_file.disk_id x.store.disk ≡ some old
          → old.disk_serial ≡ id_file.disk_id)
      → ((claim_disk fl new_id now_milli space dir node_id now grace (calm x)).0 ≡ ok tt)
        × IsReset id_file.disk_id dir node_id now
            (claim_disk fl new_id now_milli space dir node_id now grace (calm x)).1
  unfolding claim_disk read_or_create_disk_id read_disk_stats
  claim_disk-IsReset x id_file dir node_id now grace known named sound keyed =
      let other : (id_file.disk_id == "") ≡ false =
        ground (arith, eq_iff id_file.disk_id "", named) in
      elim (Option-cases (lookup dir x.stats)) [
        | inl e ↦
            rw (known, other, e)
              (saved x id_file dir node_id now grace
                (stats_or_new fl new_id now_milli space id_file.disk_id now none) keyed)
        | inr (some f, e) ↦ rw (known, other, e) (saved x id_file dir node_id now grace f keyed)
        | inr (none, e) ↦ absurd (sound e)
      ]
