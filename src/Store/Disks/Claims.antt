-- ===== src/Store/Disks/Claims.antt =====
-- Who holds a disk after `ClaimOrTouchDisk`.
pub mod Outcome
use immich_go_server.Prelude.{
  ℤ, String, ◌≡◌, ◌≢◌, refl, ap, ◌∙◌, inl, inr, true, false, some, arith, if◌then◌else◌, lookup,
  insert, lookup-insert_self, Bool-cases, eq_iff, ok, err, leb_ℤ, sub64,
}
use immich_go_server.Float64.{Float64}
use immich_go_server.Model.{Disk}
use immich_go_server.Claim.{eligible_for_claim}
use immich_go_server.Store.{Store, working, disk_owned}
use immich_go_server.Store.Disks.{get_disk, may_mount, mounted, claim_or_touch_disk}

-- The store after a claim that is allowed.
abbrev pub claimed : (fl : Float64) → Store fl.F → Disk fl.F → String → ℤ → Store fl.F
claimed fl s d node_id now = record (working s) {
  disk = insert d.disk_serial (mounted d node_id now) s.disk;
}

module _ (fl : Float64) (s : Store fl.F) (d : Disk fl.F)
    (found : lookup d.disk_serial s.disk ≡ some d) where
  pub claim_or_touch_disk_lem :
      (node_id : String) (now grace : ℤ)
      → claim_or_touch_disk fl d.disk_serial node_id now grace (working s) ≡ (
          if may_mount d node_id now grace
          then (ok (mounted d node_id now), claimed fl s d node_id now)
          else (err (disk_owned d.disk_serial d.mounted_node_id), working s))
  unfolding claim_or_touch_disk get_disk
  claim_or_touch_disk_lem node_id now grace = elim (Bool-cases (may_mount d node_id now grace)) [
    | inl may ↦ rw (found, may) (rw found refl)
    | inr never ↦ rw (found, never) refl
  ]

  pub claim_allowed :
      (node_id : String) (now grace : ℤ)
      → may_mount d node_id now grace ≡ true
      → claim_or_touch_disk fl d.disk_serial node_id now grace (working s)
        ≡ (ok (mounted d node_id now), claimed fl s d node_id now)
  claim_allowed node_id now grace may = claim_or_touch_disk_lem node_id now grace ∙ rw may refl

  pub claim_denied :
      (node_id : String) (now grace : ℤ)
      → may_mount d node_id now grace ≡ false
      → claim_or_touch_disk fl d.disk_serial node_id now grace (working s)
        ≡ (err (disk_owned d.disk_serial d.mounted_node_id), working s)
  claim_denied node_id now grace denied = claim_or_touch_disk_lem node_id now grace ∙ rw denied refl

module _ (fl : Float64) (s : Store fl.F) (d : Disk fl.F)
    (found : lookup d.disk_serial s.disk ≡ some d) where
  -- A disk that a node holds is not given to another while the holder was seen recently.
  mounted-kept :
      (holder other : String) (now later_on grace : ℤ)
      → holder ≢ ""
      → holder ≢ other
      → leb_ℤ grace (sub64 later_on now) ≡ false
      → may_mount (mounted d holder now) other later_on grace ≡ false
  unfolding eligible_for_claim
  mounted-kept holder other now later_on grace named apart early =
      ground (arith, early, eq_iff holder "", eq_iff holder other)

  -- A node that claims a disk holds it: until its `LastSeenAt` is `graceOffline` seconds old, a claim
  -- by another node fails and names the holder.
  pub claim_or_touch_disk_exclusive :
      (holder other : String) (now later_on grace : ℤ)
      → may_mount d holder now grace ≡ true
      → holder ≢ ""
      → holder ≢ other
      → leb_ℤ grace (sub64 later_on now) ≡ false
      → (claim_or_touch_disk fl d.disk_serial other later_on grace
          (claim_or_touch_disk fl d.disk_serial holder now grace (working s)).1).0
        ≡ err (disk_owned d.disk_serial holder)
  claim_or_touch_disk_exclusive holder other now later_on grace may named apart early =
      ap (λ r. (claim_or_touch_disk fl d.disk_serial other later_on grace r.1).0)
        (claim_allowed fl s d found holder now grace may)
      ∙ ap (λ r. r.0)
          (claim_denied fl (claimed fl s d holder now) (mounted d holder now)
            (lookup-insert_self d.disk_serial (mounted d holder now) s.disk) other later_on grace
            (mounted-kept holder other now later_on grace named apart early))
