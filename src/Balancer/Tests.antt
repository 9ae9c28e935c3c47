-- ===== src/Balancer/Tests.antt =====
-- A cluster of two nodes with four disks, with numbers that have two decimals.
use mathlib.Core.List.{Memᴰ}
use mathlib.Core.List.Memᴰ
use immich_go_server.Prelude.{
  ℤ, pos, String, ◌≡◌, ◌≢◌, refl, ap, ◌↔◌, ◌⊎◌, false, List, [], ◌∷◌, none, some, ◌+ℤ◌, ◌-ℤ◌, ◌*ℤ◌,
  ◌≤ℤ◌, add64, sub64, mul64, wrap, contains, lookup, insert, include,
}
use immich_go_server.Float64.{
  hundredths, of_int_hundredths, to_int_hundredths, mul_hundredths, div_hundredths,
}
use immich_go_server.Config.{Config, default}
use immich_go_server.Model as Model
use immich_go_server.Model.{Disk, Directory, Asset, Tier, tier_hot, tier_warm, tier_cold}
use immich_go_server.Space.{hard_reserve_floor, precheck_space, required}
use immich_go_server.Balancer.{
  MigrationPlan, plan_migration, select_target, target_tier, admits, more_reliable, adjacent,
  migration_gain, tier_rank, select_replica_target, by_serial, own_replicas, replica_disks,
  replica_nodes, sole, any_tier, accepts, outscores, replica_score,
}
use immich_go_server.Balancer.Plan.{Plans, Nobody, IsTarget, IsBeside, plan_migration-Plans}
use immich_go_server.Balancer.Plan.Idle.{plan_migration_idle}
use immich_go_server.Balancer.Replica.{AllOn, score, Accepted, select_replica_target_spread}
use immich_go_server.Balancer.Replica.Nobody.{MayTake, select_replica_target-none}

abbrev disk : String → String → Tier → Disk ℤ
disk serial node tier = record {
  disk_serial = serial;
  label = "";
  capacity_bytes = pos 100;
  free_bytes = pos 90;
  tier = tier;
  mounted_node_id = node;
  online_seconds = pos 0;
  online_score = pos 0;
  first_seen_at = pos 0;
  last_tick_at = pos 0;
  last_seen_at = pos 0;
  suspect = false;
  blob_root = "/d";
}

abbrev pub config : Config ℤ
config = record (default hundredths) { disk_min_free_bytes = pos 10 }

abbrev pub disks : List (Disk ℤ)
disks = disk "w1" "n1" tier_warm ∷ disk "w2" "n1" tier_warm ∷ disk "c1" "n2" tier_cold ∷ []

-- A warm directory that is hot.
abbrev pub dir : Directory ℤ
dir = record {
  dir_key = "2026/06";
  node_id = "n1";
  disk_serial = "w1";
  tier = tier_warm;
  temperature = pos 90;
  total_bytes = pos 20;
  access_score = pos 0;
  last_eval_at = pos 0;
}

abbrev plan : MigrationPlan
plan = record { dir_key = "2026/06"; from_disk = "w1"; to_disk = "w2"; gain = pos 0 }

plans : plan_migration hundredths dir disks config ≡ some plan
unfolding plan_migration select_target target_tier admits more_reliable adjacent migration_gain
    tier_rank precheck_space required hard_reserve_floor contains of_int_hundredths
    to_int_hundredths mul_hundredths add64 sub64 mul64 wrap ◌+ℤ◌ ◌-ℤ◌ ◌*ℤ◌
plans = refl

plan_migration-Plans_example :
    (t : Tier) × IsTarget hundredths dir disks config t
    × (t ≢ tier_warm)
    × (Plans hundredths dir disks config (λ u. u ≡ t) plan
        ⊎ (Nobody hundredths dir disks config (λ u. u ≡ t)
            × Plans hundredths dir disks config (IsBeside t) plan))
plan_migration-Plans_example = plan_migration-Plans hundredths dir disks config plan plans

none_hot : Nobody hundredths dir disks config (λ u. u ≡ tier_hot)
none_hot d (Memᴰ.head e) f = let same : d.tier ≡ tier_warm = ap (λ x. x.tier) e in cc
none_hot d (Memᴰ.tail (Memᴰ.head e)) f = let same : d.tier ≡ tier_warm = ap (λ x. x.tier) e in cc
none_hot d (Memᴰ.tail (Memᴰ.tail (Memᴰ.head e))) f =
    let same : d.tier ≡ tier_cold = ap (λ x. x.tier) e in cc
none_hot d (Memᴰ.tail (Memᴰ.tail (Memᴰ.tail m))) f = absurd (Memᴰ.not-nil m)

plan_migration_idle_example :
    (plan.gain ≡ pos 0)
    × ((d : Disk ℤ) × Memᴰ d disks
        × (plan.to_disk ≡ d.disk_serial)
        × (d.disk_serial ≢ "w1")
        × (d.tier ≡ tier_warm))
plan_migration_idle_example =
    plan_migration_idle hundredths dir disks config plan refl refl refl none_hot plans

abbrev pub asset : Asset
asset = record {
  asset_id = "a";
  size_bytes = pos 5;
  checksum = "sum";
  dir_key = "2026/06";
  original_path = "p.jpg";
}

abbrev existing : List Model.Replica
existing =
    record {
      replica_id = "a@w1";
      asset_id = "a";
      disk_serial = "w1";
      node_id = "n1";
      checksum = "sum";
      status = "HEALTHY";
    }
    ∷ []

abbrev chosen : Disk ℤ
chosen = disk "c1" "n2" tier_cold

chooses : select_replica_target hundredths asset existing disks config ≡ some chosen
unfolding div_hundredths select_replica_target by_serial replica_disks replica_nodes sole any_tier
    accepts outscores replica_score hard_reserve_floor contains include lookup insert
    of_int_hundredths to_int_hundredths mul_hundredths add64 sub64 wrap ◌+ℤ◌ ◌-ℤ◌ ◌*ℤ◌
chooses = refl

select_replica_target_spread_example :
    Memᴰ chosen disks
    × ((r : Model.Replica)
        → Memᴰ r existing
        → r.asset_id ≡ asset.asset_id
        → r.disk_serial ≢ chosen.disk_serial)
    × (hard_reserve_floor hundredths chosen config ≤ℤ sub64 (pos 90) (pos 5))
    × ((n : String) (r : Model.Replica)
        → n ≢ ""
        → Memᴰ r (own_replicas asset existing)
        → AllOn n (own_replicas asset existing)
        → chosen.mounted_node_id ≢ n)
    × ((e : Disk ℤ)
        → Memᴰ e disks
        → Accepted hundredths asset existing disks config e
        → hundredths.lt
            (score hundredths asset existing disks config chosen)
            (score hundredths asset existing disks config e)
          ≡ false)
select_replica_target_spread_example =
    select_replica_target_spread hundredths asset existing disks config chosen chooses

select_replica_target-none_example :
    (select_replica_target hundredths asset existing disks config ≡ none)
    ↔ ((d : Disk ℤ) → Memᴰ d disks → ¬ MayTake hundredths asset existing disks config d)
select_replica_target-none_example =
    select_replica_target-none hundredths asset existing disks config
