-- ===== src/Balancer/Plan/Idle.antt =====
-- A plan that moves a directory within its own tier.
use mathlib.Core.List.{Memᴰ}
use mathlib.Core.Path.{subst₂}
use immich_go_server.Prelude.{
  sym, ◌∙◌, ℤ, pos, ◌≡◌, ◌≢◌, refl, inl, inr, true, false, List, some, arith, wrap, mul64, ◌*ℤ◌,
  sub64, ◌-ℤ◌,
}
use immich_go_server.Float64.{Float64, ge}
use immich_go_server.Config.{Config}
use immich_go_server.Model.{Disk, Directory, Tier, tier_hot, tier_warm}
use immich_go_server.Balancer.{migration_gain, MigrationPlan, plan_migration}
use immich_go_server.Balancer.Plan.{IsBeside, IsTarget, Nobody, hot_not_warm, plan_migration-Plans}

beside_hot : (t u : Tier) → t ≡ tier_hot → IsBeside t u → u ≡ tier_warm
beside_hot t u e (inl (w, _)) = absurd (hot_not_warm (sym e ∙ w))
beside_hot t u e (inr (_, w)) = w

module _ (fl : Float64) (dir : Directory fl.F) (candidates : List (Disk fl.F))
    (cfg : Config fl.F) where
  same_tier_gain : (t : Tier) (n : ℤ) → migration_gain t t n ≡ pos 0
  unfolding migration_gain sub64 mul64 ◌-ℤ◌ ◌*ℤ◌ wrap
  same_tier_gain t n = ground arith

  hot_only :
      (t : Tier)
      → fl.lt dir.temperature cfg.cold_temp_thr ≡ false
      → ge fl dir.temperature cfg.hot_temp_thr ≡ true
      → IsTarget fl dir candidates cfg t
      → t ≡ tier_hot
  hot_only t warm hot h = ground (arith, warm, hot)

  -- The relaxation to the adjacent tiers may plan a move that gains nothing: a warm directory that is hot,
  -- where no hot disk fits, goes to another warm disk than its own, with gain 0.
  pub plan_migration_idle :
      (p : MigrationPlan)
      → fl.lt dir.temperature cfg.cold_temp_thr ≡ false
      → ge fl dir.temperature cfg.hot_temp_thr ≡ true
      → dir.tier ≡ tier_warm
      → Nobody fl dir candidates cfg (λ u. u ≡ tier_hot)
      → plan_migration fl dir candidates cfg ≡ some p
      → (p.gain ≡ pos 0)
        × ((d : Disk fl.F) × Memᴰ d candidates
            × (p.to_disk ≡ d.disk_serial)
            × (d.disk_serial ≢ dir.disk_serial)
            × (d.tier ≡ tier_warm))
  plan_migration_idle p mild hot warm nobody h =
      let (t, is_target, apart, where_to) = plan_migration-Plans fl dir candidates cfg p h in
      let is_hot = hot_only t mild hot is_target in
      elim where_to [
        | inl (d, m, (other, tier, room), _, _) ↦ absurd (nobody d m (other, tier ∙ is_hot, room))
        | inr (_, (d, m, (other, tier, room), e, _)) ↦
            let is_warm : d.tier ≡ tier_warm = beside_hot t d.tier is_hot tier in
            rw e (
              subst₂ (λ a b. migration_gain a b dir.total_bytes ≡ pos 0) (sym warm) (sym is_warm)
                  (same_tier_gain tier_warm dir.total_bytes),
              (d, m, refl, other, is_warm),
            )
      ]
