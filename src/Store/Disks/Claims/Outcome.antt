-- ===== src/Store/Disks/Claims/Outcome.antt =====
-- What each claim of a disk by `ClaimOrTouchDisk` does.
use immich_go_server.Prelude.{
  ℤ, pos, String, ◌≡◌, ◌≢◌, refl, sym, subst, ◌∙◌, ◌⊎◌, ◌↔◌, inl, inr, true, some, arith,
  if◌then◌else◌, lookup, lookup-insert, lookup-insert_self, Bool-cases, eq_iff, Result, ok, err,
  ltb_ℤ, ◌≤ℤ◌, add64, sub64,
}
use mathlib.Core.Bool.{false≢true}
use immich_go_server.Float64.{Float64}
use immich_go_server.Model.{Disk}
use immich_go_server.Claim.{eligible_for_claim, accrue_online_seconds}
use immich_go_server.Store.{Store, StoreError, working, disk_owned}
use immich_go_server.Store.Disks.{may_mount, mounted, claim_or_touch_disk}
use immich_go_server.Store.Disks.Claims.{claimed, claim_allowed, claim_denied}

module _ {F : Type 0} (d : Disk F) (node_id : String) (now grace : ℤ) where
  -- Nobody holds the disk, or the node itself does, or its holder was last seen at least `grace` seconds ago.
  abbrev pub IsFree : Type 0
  IsFree =
      (d.mounted_node_id ≡ "")
      ⊎ ((d.mounted_node_id ≡ node_id) ⊎ (grace ≤ℤ sub64 now d.last_seen_at))

  may_mount_iff : (may_mount d node_id now grace ≡ true) ↔ IsFree
  unfolding eligible_for_claim
  may_mount_iff = ground (arith, eq_iff d.mounted_node_id "", eq_iff d.mounted_node_id node_id)

  -- The disk as the node holds it: seen now, and online for the time since the last sight too, if the clock
  -- has not been set back.
  abbrev pub held : Disk F
  held = record d {
    mounted_node_id = node_id;
    last_seen_at = now;
    online_seconds =
        add64 d.online_seconds
          (if ltb_ℤ (sub64 now d.last_seen_at) (pos 0) then pos 0 else sub64 now d.last_seen_at);
  }

  mounted-held : mounted d node_id now ≡ held
  unfolding accrue_online_seconds
  mounted-held = refl

module _ (fl : Float64) (s : Store fl.F) (d : Disk fl.F)
    (found : lookup d.disk_serial s.disk ≡ some d) where
  -- The row of the disk is the one that the node holds, and the other rows are as before.
  abbrev pub IsHeld : Disk fl.F → Result StoreError (Disk fl.F) × Store fl.F → Type 0
  IsHeld row r =
      (r.0 ≡ ok row)
      × (lookup d.disk_serial r.1.disk ≡ some row)
      × ((k : String) → k ≢ d.disk_serial → lookup k r.1.disk ≡ lookup k s.disk)

  claimed-IsHeld :
      (node_id : String) (now grace : ℤ)
      → IsHeld (mounted d node_id now) (ok (mounted d node_id now), claimed fl s d node_id now)
  claimed-IsHeld node_id now grace = (
    refl,
    lookup-insert_self d.disk_serial (mounted d node_id now) s.disk,
    λ k other. ground (
      arith,
      lookup-insert d.disk_serial k (mounted d node_id now) s.disk,
      eq_iff d.disk_serial k,
    ),
  )

  -- While the engine works, a claim of a disk that nobody holds, that the node holds itself or whose holder was
  -- last seen at least `grace` seconds ago succeeds: the disk is mounted on the node, seen now, and online
  -- for the time since the last sight too, and the other disks are as before. Any other claim fails,
  -- names the holder and changes nothing.
  pub claim_or_touch_disk_outcome :
      (node_id : String) (now grace : ℤ)
      → (IsFree d node_id now grace
          × IsHeld
              (held d node_id now grace)
              (claim_or_touch_disk fl d.disk_serial node_id now grace (working s)))
        ⊎ ((¬ IsFree d node_id now grace)
            × (claim_or_touch_disk fl d.disk_serial node_id now grace (working s)
                ≡ (err (disk_owned d.disk_serial d.mounted_node_id), working s)))
  claim_or_touch_disk_outcome node_id now grace =
      elim (Bool-cases (may_mount d node_id now grace)) [
        | inl may ↦ inl (
          (may_mount_iff d node_id now grace).0 may,
          subst
              (λ row.
                IsHeld row (claim_or_touch_disk fl d.disk_serial node_id now grace (working s)))
              (mounted-held d node_id now grace)
              (subst (IsHeld (mounted d node_id now))
                (sym (claim_allowed fl s d found node_id now grace may))
                (claimed-IsHeld node_id now grace)),
        )
        | inr never ↦ inr (
          (λ free. false≢true (sym never ∙ (may_mount_iff d node_id now grace).1 free)),
          claim_denied fl s d found node_id now grace never,
        )
      ]
