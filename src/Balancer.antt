-- ===== src/Balancer.antt =====
-- internal/balancer/balancer.go: where a directory and a further replica should go.
pub mod Plan
pub mod Replica
pub mod Tests
use immich_go_server.Prelude.{
  ℕ, ◌^◌, ℤ, pos, String, Bool, true, false, not, ◌&&◌, ◌||◌, List, [], ◌∷◌, Option, none, some,
  if◌then◌else◌, ltb_ℤ, sub64, mul64, ◌==◌, retain, choose, Assoc, lookup, insert, contains,
  include,
}
use immich_go_server.Float64.{Float64, ge}
use immich_go_server.Config.{Config}
use immich_go_server.Model.{Disk, Directory, Asset, Tier, tier_hot, tier_warm, tier_cold}
use immich_go_server.Model
use immich_go_server.Space.{precheck_space, hard_reserve_floor}

pub tier_rank : Tier → ℤ
tier_rank t = if t == tier_hot then pos 3 else if t == tier_warm then pos 2 else pos 1

pub migration_gain : Tier → Tier → ℤ → ℤ
unfolding tier_rank
migration_gain current target total_bytes =
    let diff = sub64 (tier_rank target) (tier_rank current) in
    mul64 (if ltb_ℤ diff (pos 0) then sub64 (pos 0) diff else diff) total_bytes

pub adjacent : Tier → List Tier
adjacent t =
    if t == tier_hot
    then tier_warm ∷ []
    else if t == tier_warm
    then tier_hot ∷ tier_cold ∷ []
    else tier_warm ∷ []

pub record MigrationPlan : Type 0 where
  pub dir_key : String
  pub from_disk : String
  pub to_disk : String
  pub gain : ℤ

module _ (fl : Float64) where
  pub target_tier : fl.F → Config fl.F → Tier
  target_tier temp cfg =
      if fl.lt temp cfg.cold_temp_thr
      then tier_cold
      else if ge fl temp cfg.hot_temp_thr
      then tier_hot
      else tier_warm

  -- The tests of the loop of `selectTarget`, none of which may skip the disk.
  pub admits : Directory fl.F → List Tier → Config fl.F → Disk fl.F → Bool
  admits dir tiers cfg d =
      not (d.disk_serial == dir.disk_serial)
      && contains d.tier tiers
      && precheck_space fl d dir.total_bytes cfg

  pub more_reliable : Disk fl.F → Disk fl.F → Bool
  more_reliable d best = fl.lt best.online_score d.online_score

  abbrev pub plan_to : Directory fl.F → Disk fl.F → MigrationPlan
  plan_to dir best = record {
    dir_key = dir.dir_key;
    from_disk = dir.disk_serial;
    to_disk = best.disk_serial;
    gain = migration_gain dir.tier best.tier dir.total_bytes;
  }

  pub select_target :
      Directory fl.F → List (Disk fl.F) → List Tier → Config fl.F → Option MigrationPlan
  select_target dir candidates tiers cfg =
      elim (choose (admits dir tiers cfg) more_reliable candidates) [
        | none ↦ none
        | some best ↦ some (plan_to dir best)
      ]

  pub plan_migration : Directory fl.F → List (Disk fl.F) → Config fl.F → Option MigrationPlan
  plan_migration dir candidates cfg =
      let target = target_tier dir.temperature cfg in
      if target == dir.tier then none else elim (select_target dir candidates (target ∷ []) cfg) [
        | some p ↦ some p
        | none ↦ select_target dir candidates (adjacent target) cfg
      ]

  pub by_serial : List (Disk fl.F) → Assoc (Disk fl.F) → Assoc (Disk fl.F)
  by_serial [] m = m
  by_serial (d ∷ ds) m = by_serial ds (insert d.disk_serial d m)

-- The replicas that the first loop of `SelectReplicaTarget` does not skip.
abbrev pub own_replicas : Asset → List Model.Replica → List Model.Replica
own_replicas asset existing = retain (λ r. r.asset_id == asset.asset_id) existing

pub replica_disks : List Model.Replica → List String
replica_disks [] = []
replica_disks (r ∷ rs) = include r.disk_serial (replica_disks rs)

pub replica_nodes : List Model.Replica → List String
replica_nodes [] = []
replica_nodes (r ∷ rs) = include r.node_id (replica_nodes rs)

pub sole : List String → String
sole (n ∷ []) = n
sole _ = ""

module _ (fl : Float64) where
  -- Whether one of the disks `serials` that `disks` knows is in a tier that passes `test`.
  pub any_tier : (Tier → Bool) → Assoc (Disk fl.F) → List String → Bool
  any_tier test disks [] = false
  any_tier test disks (s ∷ ss) =
      elim (lookup s disks) [ none ↦ false | some d ↦ test d.tier ] || any_tier test disks ss

  pub replica_score : Bool → Bool → Disk fl.F → fl.F
  replica_score has_cold has_hot_warm d =
      let is_cold = d.tier == tier_cold in
      let s = d.online_score in
      let s = if is_cold && has_hot_warm && not has_cold then fl.add s (fl.of_int (pos 2)) else s in
      let s =
        if not is_cold && has_cold && not has_hot_warm then fl.add s (fl.of_int (pos 2)) else s in
      fl.add s (fl.div (fl.of_int d.free_bytes) (fl.of_int (pos (10 ^ 12))))

  -- The tests of the loop over all disks, none of which may skip the disk.
  pub accepts : Asset → List String → String → Config fl.F → Disk fl.F → Bool
  accepts asset existing_disks only_node cfg d =
      not (contains d.disk_serial existing_disks)
      && not (ltb_ℤ (sub64 d.free_bytes asset.size_bytes) (hard_reserve_floor fl d cfg))
      && not (not (only_node == "") && d.mounted_node_id == only_node)

  -- The scan over the scored candidates: a higher score wins.
  pub outscores : Bool → Bool → Disk fl.F → Disk fl.F → Bool
  outscores has_cold has_hot_warm c best =
      fl.lt (replica_score has_cold has_hot_warm best) (replica_score has_cold has_hot_warm c)

  pub select_replica_target :
      Asset → List Model.Replica → List (Disk fl.F) → Config fl.F → Option (Disk fl.F)
  select_replica_target asset existing all_disks cfg =
      let disks = by_serial fl all_disks [] in
      let existing_disks = replica_disks (own_replicas asset existing) in
      let only_node = sole (replica_nodes (own_replicas asset existing)) in
      let has_cold = any_tier (λ t. t == tier_cold) disks existing_disks in
      let has_hot_warm = any_tier (λ t. not (t == tier_cold)) disks existing_disks in
      choose (accepts asset existing_disks only_node cfg) (outscores has_cold has_hot_warm)
        all_disks
