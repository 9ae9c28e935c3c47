-- ===== src/Claim/Laws.antt =====
-- What the claim rule and the accrual guarantee.
use immich_go_server.Prelude.{
  ℤ, pos, String, ◌≡◌, ◌≢◌, ◌↔◌, ◌⊎◌, true, arith, ◌+ℤ◌, ◌-ℤ◌, ◌≤ℤ◌, IsInt64, sub64_exact,
  add64_exact, eq_iff, +ℤ_parts, -ℤ_parts, eq_of_parts,
}
use immich_go_server.Model.{Disk}
use immich_go_server.Claim.{eligible_for_claim, accrue_online_seconds}

-- A disk may be claimed exactly when nobody has it, or when another node has it and the last sight
-- of the disk is at least `grace_offline` seconds old. The difference of the times has to fit.
pub eligible_for_claim_iff :
    {F : Type 0} (d : Disk F) (node : String) (now grace : ℤ)
    → IsInt64 (now -ℤ d.last_seen_at)
    → (eligible_for_claim d node now grace ≡ true) ↔ (
        (d.mounted_node_id ≡ "")
        ⊎ ((d.mounted_node_id ≢ "")
            × (d.mounted_node_id ≢ node)
            × (grace ≤ℤ now -ℤ d.last_seen_at)))
unfolding eligible_for_claim
eligible_for_claim_iff d node now grace fits =
    rw (sub64_exact now d.last_seen_at fits)
      (ground (arith, eq_iff d.mounted_node_id "", eq_iff d.mounted_node_id node))

-- The accrued time never falls, also when the clock has been set back, and it grows by exactly the
-- time since the last sight when the clock has not.
pub accrue_online_seconds_bounds :
    (prev last now : ℤ)
    → IsInt64 prev
    → IsInt64 (now -ℤ last)
    → IsInt64 (prev +ℤ (now -ℤ last))
    → (prev ≤ℤ accrue_online_seconds prev last now)
      × (last ≤ℤ now → accrue_online_seconds prev last now ≡ prev +ℤ (now -ℤ last))
      × (now ≤ℤ last → accrue_online_seconds prev last now ≡ prev)
unfolding accrue_online_seconds
accrue_online_seconds_bounds prev last now ip id is = rw (sub64_exact now last id) (
    ground (
      arith,
      add64_exact prev (pos 0),
      add64_exact prev (now -ℤ last) is,
      +ℤ_parts prev (pos 0),
      -ℤ_parts now last,
      +ℤ_parts prev (now -ℤ last),
      eq_of_parts (prev +ℤ pos 0) prev,
      eq_of_parts (prev +ℤ (now -ℤ last)) prev,
    ))
