-- ===== src/Space.antt =====
-- internal/space/space.go: the free space that a disk has to keep, and the disk for a new upload.
pub mod WriteDisk
pub mod Tests
pub mod Floor
use immich_go_server.Prelude.{
  ℤ, pos, Bool, true, false, ◌&&◌, List, [], ◌∷◌, Option, none, some, if◌then◌else◌, ltb_ℤ, leb_ℤ,
  add64, sub64, ◌==◌, retain, first_best,
}
use immich_go_server.Float64.{Float64, ge}
use immich_go_server.Config.{Config}
use immich_go_server.Model.{Disk, Tier, tier_hot, tier_warm, tier_cold}

module _ (fl : Float64) where
  unfoldable pub hard_reserve_floor : Disk fl.F → Config fl.F → ℤ
  hard_reserve_floor d cfg =
      let by_ratio = fl.to_int (fl.mul (fl.of_int d.capacity_bytes) cfg.disk_min_free_ratio) in
      if ltb_ℤ cfg.disk_min_free_bytes by_ratio then by_ratio else cfg.disk_min_free_bytes

  pub meets_hard_floor : Disk fl.F → ℤ → Config fl.F → Bool
  meets_hard_floor d size cfg = leb_ℤ (hard_reserve_floor d cfg) (sub64 d.free_bytes size)

  -- The local variable `required` of `PrecheckSpace`.
  unfoldable pub required : ℤ → Config fl.F → ℤ
  required dir_size cfg =
      fl.to_int (fl.mul (fl.of_int dir_size) (fl.add (fl.of_int (pos 1)) cfg.safety_margin))

  unfoldable pub precheck_space : Disk fl.F → ℤ → Config fl.F → Bool
  precheck_space d dir_size cfg =
      leb_ℤ (add64 (required dir_size cfg) (hard_reserve_floor d cfg)) d.free_bytes

  pub soft_target : Tier → Config fl.F → fl.F
  soft_target t cfg =
      if t == tier_hot
      then cfg.hot_free_target
      else if t == tier_warm
      then cfg.warm_free_target
      else cfg.cold_free_target

  pub below_soft_target : Disk fl.F → Config fl.F → Bool
  below_soft_target d cfg =
      if leb_ℤ d.capacity_bytes (pos 0)
      then false
      else fl.lt (fl.div (fl.of_int d.free_bytes) (fl.of_int d.capacity_bytes))
          (soft_target d.tier cfg)

  -- The test of the inner loop of `SelectWriteDisk`.
  pub keeps_soft_target : Disk fl.F → ℤ → Tier → Config fl.F → Bool
  keeps_soft_target d size pref cfg =
      let after = sub64 d.free_bytes size in
      let ratio = fl.div (fl.of_int after) (fl.of_int d.capacity_bytes) in
      ge fl ratio (soft_target pref cfg)

  pub more_free : Disk fl.F → Disk fl.F → Bool
  more_free d best = ltb_ℤ best.free_bytes d.free_bytes

  abbrev pub pool : List (Disk fl.F) → ℤ → Config fl.F → Tier → List (Disk fl.F)
  pool cands size cfg pref = retain (λ d. d.tier == pref && keeps_soft_target d size pref cfg) cands

  -- The loop over the tiers: the first tier with a fitting disk decides.
  pub by_preference : List (Disk fl.F) → ℤ → Config fl.F → List Tier → Option (Disk fl.F)
  by_preference cands size cfg [] = none
  by_preference cands size cfg (pref ∷ prefs) =
      elim (first_best more_free (pool cands size cfg pref)) [
        | none ↦ by_preference cands size cfg prefs
        | some best ↦ some best
      ]

  -- `none` stands for `ok=false`.
  pub select_write_disk : List (Disk fl.F) → ℤ → Config fl.F → Option (Disk fl.F)
  unfolding by_preference
  select_write_disk local size cfg = elim (retain (λ d. meets_hard_floor d size cfg) local) [
    | [] ↦ none
    | d ∷ ds ↦ by_preference (d ∷ ds) size cfg (tier_hot ∷ tier_warm ∷ tier_cold ∷ [])
  ]
