-- ===== src/Claim.antt =====
-- internal/claim/claim.go: who may claim a disk, and the time that a disk has been online.
pub mod Laws
pub mod Tests
use immich_go_server.Prelude.{
  ℤ, pos, String, Bool, true, false, if◌then◌else◌, ltb_ℤ, leb_ℤ, add64, sub64, ◌==◌,
}
use immich_go_server.Model.{Disk}

unfoldable pub eligible_for_claim : {F : Type 0} → Disk F → String → ℤ → ℤ → Bool
eligible_for_claim d claiming_node now grace_offline =
    if d.mounted_node_id == ""
    then true
    else if d.mounted_node_id == claiming_node
    then false
    else leb_ℤ grace_offline (sub64 now d.last_seen_at)

unfoldable pub accrue_online_seconds : ℤ → ℤ → ℤ → ℤ
accrue_online_seconds prev_seconds last_seen_at now =
    let delta = sub64 now last_seen_at in
    add64 prev_seconds (if ltb_ℤ delta (pos 0) then pos 0 else delta)
