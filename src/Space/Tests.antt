-- ===== src/Space/Tests.antt =====
-- Writes on three small disks, with numbers that have two decimals.
use mathlib.Core.List.{Memᴰ}
use immich_go_server.Prelude.{
  ℤ, pos, String, ◌≡◌, refl, ◌⊎◌, true, false, List, [], ◌∷◌, some, arith, ◌+ℤ◌, ◌-ℤ◌, ◌*ℤ◌, ◌≤ℤ◌,
  IsInt64, add64, sub64, wrap,
}
use immich_go_server.Float64.{
  hundredths, of_int_hundredths, to_int_hundredths, mul_hundredths, div_hundredths,
}
use immich_go_server.Config.{Config, default}
use immich_go_server.Model.{Disk, Tier, tier_hot, tier_warm}
use immich_go_server.Space.{
  select_write_disk, meets_hard_floor, keeps_soft_target, hard_reserve_floor, soft_target,
  by_preference, more_free, required, precheck_space,
}
use immich_go_server.Space.WriteDisk.{Suits, NotBetter, select_write_disk_best}
use immich_go_server.Space.Floor.{hard_reserve_floor_max, share, precheck_space-meets_hard_floor}

abbrev disk : String → Tier → ℤ → ℤ → Disk ℤ
disk serial tier free capacity = record {
  disk_serial = serial;
  label = "";
  capacity_bytes = capacity;
  free_bytes = free;
  tier = tier;
  mounted_node_id = "n1";
  online_seconds = pos 0;
  online_score = pos 0;
  first_seen_at = pos 0;
  last_tick_at = pos 0;
  last_seen_at = pos 0;
  suspect = false;
  blob_root = "/d";
}

abbrev config : Config ℤ
config = record (default hundredths) { disk_min_free_bytes = pos 10 }

abbrev disks : List (Disk ℤ)
disks =
    disk "full" tier_hot (pos 15) (pos 100)
    ∷ disk "a" tier_warm (pos 60) (pos 100)
    ∷ disk "b" tier_warm (pos 80) (pos 100)
    ∷ []

selects_b :
    select_write_disk hundredths disks (pos 20) config
    ≡ some (disk "b" tier_warm (pos 80) (pos 100))
unfolding select_write_disk by_preference keeps_soft_target soft_target more_free meets_hard_floor
    hard_reserve_floor of_int_hundredths to_int_hundredths mul_hundredths div_hundredths sub64 wrap
    ◌-ℤ◌
selects_b = refl

select_write_disk_best_example :
    Memᴰ (disk "b" tier_warm (pos 80) (pos 100)) disks
    × Suits hundredths (pos 20) config (disk "b" tier_warm (pos 80) (pos 100))
    × ((e : Disk ℤ)
        → Memᴰ e disks
        → Suits hundredths (pos 20) config e
        → NotBetter hundredths (pos 20) config (disk "b" tier_warm (pos 80) (pos 100)) e)
select_write_disk_best_example =
    select_write_disk_best hundredths (pos 20) config disks (disk "b" tier_warm (pos 80) (pos 100))
      selects_b

hard_reserve_floor_max_example :
    (config.disk_min_free_bytes
      ≤ℤ hard_reserve_floor hundredths (disk "a" tier_warm (pos 60) (pos 100)) config)
    × (share hundredths (disk "a" tier_warm (pos 60) (pos 100)) config
        ≤ℤ hard_reserve_floor hundredths (disk "a" tier_warm (pos 60) (pos 100)) config)
    × ((hard_reserve_floor hundredths (disk "a" tier_warm (pos 60) (pos 100)) config
          ≡ config.disk_min_free_bytes)
        ⊎ (hard_reserve_floor hundredths (disk "a" tier_warm (pos 60) (pos 100)) config
            ≡ share hundredths (disk "a" tier_warm (pos 60) (pos 100)) config))
hard_reserve_floor_max_example =
    hard_reserve_floor_max hundredths (disk "a" tier_warm (pos 60) (pos 100)) config

abbrev a_disk : Disk ℤ
a_disk = disk "a" tier_warm (pos 60) (pos 100)

required_20 : required hundredths (pos 20) config ≡ pos 22
unfolding required of_int_hundredths to_int_hundredths mul_hundredths ◌+ℤ◌ ◌*ℤ◌
required_20 = refl

more_than_size : pos 20 ≤ℤ required hundredths (pos 20) config
more_than_size = rw required_20 (omega arith)

free_fits : IsInt64 (pos 60 -ℤ pos 20)
unfolding ◌-ℤ◌
free_fits = (omega arith, omega arith)

sum_fits :
    IsInt64 (required hundredths (pos 20) config +ℤ hard_reserve_floor hundredths a_disk config)
unfolding hard_reserve_floor ◌+ℤ◌ of_int_hundredths to_int_hundredths mul_hundredths
sum_fits = rw required_20 (omega arith, omega arith)

passes : precheck_space hundredths a_disk (pos 20) config ≡ true
unfolding precheck_space required hard_reserve_floor add64 wrap ◌+ℤ◌ of_int_hundredths
    to_int_hundredths mul_hundredths
passes = refl

precheck_space-meets_hard_floor_example : meets_hard_floor hundredths a_disk (pos 20) config ≡ true
precheck_space-meets_hard_floor_example =
    precheck_space-meets_hard_floor hundredths a_disk config (pos 20) more_than_size free_fits
      sum_fits passes
