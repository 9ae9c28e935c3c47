-- ===== src/Space/Floor.antt =====
-- The hard floor that a write and a migration have to leave free.
use immich_go_server.Prelude.{
  ℤ, ◌≡◌, ◌↔◌, ◌⊎◌, true, arith, ◌+ℤ◌, ◌-ℤ◌, ◌≤ℤ◌, IsInt64, sub64_exact, add64_exact, -ℤ_parts,
  +ℤ_parts,
}
use immich_go_server.Float64.{Float64}
use immich_go_server.Config.{Config}
use immich_go_server.Model.{Disk}
use immich_go_server.Space.{hard_reserve_floor, meets_hard_floor, required, precheck_space}

module _ (fl : Float64) (d : Disk fl.F) (cfg : Config fl.F) where
  abbrev pub share : ℤ
  share = fl.to_int (fl.mul (fl.of_int d.capacity_bytes) cfg.disk_min_free_ratio)

  -- The floor is the larger of the absolute bytes and the share of the capacity.
  pub hard_reserve_floor_max :
      (cfg.disk_min_free_bytes ≤ℤ hard_reserve_floor fl d cfg)
      × (share ≤ℤ hard_reserve_floor fl d cfg)
      × ((hard_reserve_floor fl d cfg ≡ cfg.disk_min_free_bytes)
          ⊎ (hard_reserve_floor fl d cfg ≡ share))
  unfolding hard_reserve_floor
  hard_reserve_floor_max = ground arith

  -- A write of `size` bytes passes exactly when the floor is still free after it.
  pub meets_hard_floor_iff :
      (size : ℤ)
      → IsInt64 (d.free_bytes -ℤ size)
      → (meets_hard_floor fl d size cfg ≡ true)
        ↔ (hard_reserve_floor fl d cfg ≤ℤ d.free_bytes -ℤ size)
  unfolding meets_hard_floor
  meets_hard_floor_iff size fits = rw (sub64_exact d.free_bytes size fits) (ground arith)

  -- A migration that passes the precheck also passes the test of a plain write of the same size,
  -- as soon as the margin does not make the size smaller and no sum overflows.
  pub precheck_space-meets_hard_floor :
      (dir_size : ℤ)
      → dir_size ≤ℤ required fl dir_size cfg
      → IsInt64 (d.free_bytes -ℤ dir_size)
      → IsInt64 (required fl dir_size cfg +ℤ hard_reserve_floor fl d cfg)
      → precheck_space fl d dir_size cfg ≡ true
      → meets_hard_floor fl d dir_size cfg ≡ true
  unfolding meets_hard_floor precheck_space
  precheck_space-meets_hard_floor dir_size more fits sums h = ground (
    arith,
    sub64_exact d.free_bytes dir_size fits,
    add64_exact (required fl dir_size cfg) (hard_reserve_floor fl d cfg) sums,
    -ℤ_parts d.free_bytes dir_size,
    +ℤ_parts (required fl dir_size cfg) (hard_reserve_floor fl d cfg),
  )
