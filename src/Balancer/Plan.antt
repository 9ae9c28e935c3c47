-- ===== src/Balancer/Plan.antt =====
-- Migration plans: the tier that a directory belongs in, and the disk that it goes to.
pub mod Idle
use mathlib.Core.List.{Memᴰ}
use mathlib.Core.Path.{subst₂}
use mathlib.Core.Bool.{false≢true}
use immich_go_server.Prelude.{
  subst, sym, ◌∙◌, ℤ, pos, ◌≡◌, ◌≢◌, refl, ◌↔◌, ◌⊎◌, inl, inr, true, false, List, [], ◌∷◌, Option,
  none, some, arith, IsBest, choose, choose-IsBest, choose-none_iff, Option-cases, eq_iff, contains,
  Bool-cases, ◌==◌, wrap, mul64, ◌*ℤ◌, sub64, ◌-ℤ◌,
}
use immich_go_server.Float64.{Float64, ge}
use immich_go_server.Config.{Config}
use immich_go_server.Model.{Disk, Directory, Tier, tier_hot, tier_warm, tier_cold}
use immich_go_server.Space.{precheck_space}
use immich_go_server.Balancer.{
  target_tier, migration_gain, adjacent, MigrationPlan, admits, more_reliable, select_target,
  plan_migration, plan_to,
}

-- The tiers around warm are hot and cold, and the one beside any other tier is warm.
abbrev pub IsBeside : Tier → Tier → Type 0
IsBeside target t =
    ((target ≡ tier_warm) × ((t ≡ tier_hot) ⊎ (t ≡ tier_cold)))
    ⊎ ((target ≢ tier_warm) × (t ≡ tier_warm))

pub hot_not_warm : tier_hot ≢ tier_warm
hot_not_warm e = cc

warm_iff :
    (target t : Tier)
    → target ≢ tier_warm
    → (contains t (tier_warm ∷ []) ≡ true) ↔ IsBeside target t
unfolding contains
warm_iff target t other = ground (arith, other, eq_iff tier_warm t)

around_iff :
    (target t : Tier)
    → target ≡ tier_warm
    → (contains t (tier_hot ∷ tier_cold ∷ []) ≡ true) ↔ IsBeside target t
unfolding contains
around_iff target t e = ground (arith, e, eq_iff tier_hot t, eq_iff tier_cold t)

adjacent_iff : (target t : Tier) → (contains t (adjacent target) ≡ true) ↔ IsBeside target t
unfolding adjacent
adjacent_iff target t = elim (Bool-cases (target == tier_hot)) [
  | inl h ↦ rw h (warm_iff target t (λ e. hot_not_warm (sym ((eq_iff target tier_hot).0 h) ∙ e)))
  | inr n ↦ elim (Bool-cases (target == tier_warm)) [
    | inl w ↦ rw (n, w) (around_iff target t ((eq_iff target tier_warm).0 w))
    | inr m ↦
        rw (n, m) (warm_iff target t (λ e. false≢true (sym m ∙ (eq_iff target tier_warm).1 e)))
  ]
]

single_iff : (target t : Tier) → (contains t (target ∷ []) ≡ true) ↔ (t ≡ target)
unfolding contains
single_iff target t = ground (arith, eq_iff target t)

module _ (fl : Float64) (dir : Directory fl.F) (candidates : List (Disk fl.F))
    (cfg : Config fl.F) where
  -- The tier that the temperature of the directory asks for.
  abbrev pub IsTarget : Tier → Type 0
  IsTarget t =
      ((fl.lt dir.temperature cfg.cold_temp_thr ≡ true) × (t ≡ tier_cold))
      ⊎ (((fl.lt dir.temperature cfg.cold_temp_thr ≡ false)
            × (ge fl dir.temperature cfg.hot_temp_thr ≡ true)
            × (t ≡ tier_hot))
          ⊎ ((fl.lt dir.temperature cfg.cold_temp_thr ≡ false)
              × (ge fl dir.temperature cfg.hot_temp_thr ≡ false)
              × (t ≡ tier_warm)))

  abbrev target : Tier
  target = target_tier fl dir.temperature cfg

  target-IsTarget : IsTarget target
  unfolding target_tier
  target-IsTarget = ground arith

  -- The directory is not on the disk, whose tier has `Q` and which has room for the directory.
  abbrev pub Fits : (Tier → Type 0) → Disk fl.F → Type 0
  Fits Q d =
      (d.disk_serial ≢ dir.disk_serial)
      × Q d.tier
      × (precheck_space fl d dir.total_bytes cfg ≡ true)

  -- The plan moves the directory to a candidate that fits, and no candidate that fits has a higher score.
  abbrev pub Plans : (Tier → Type 0) → MigrationPlan → Type 0
  Plans Q p =
      (d : Disk fl.F) × Memᴰ d candidates
      × Fits Q d
      × (p ≡ record {
        dir_key = dir.dir_key;
        from_disk = dir.disk_serial;
        to_disk = d.disk_serial;
        gain = migration_gain dir.tier d.tier dir.total_bytes;
      })
      × ((e : Disk fl.F)
          → Memᴰ e candidates
          → Fits Q e
          → fl.lt d.online_score e.online_score ≡ false)

  abbrev pub Nobody : (Tier → Type 0) → Type 0
  Nobody Q = (d : Disk fl.F) → Memᴰ d candidates → ¬ Fits Q d

  admits_iff :
      (tiers : List Tier) (d : Disk fl.F)
      → (admits fl dir tiers cfg d ≡ true) ↔ Fits (λ t. contains t tiers ≡ true) d
  unfolding admits
  admits_iff tiers d = ground (arith, eq_iff d.disk_serial dir.disk_serial)

  more_reliable_irrefl : (a : Disk fl.F) → more_reliable fl a a ≡ false
  unfolding more_reliable
  more_reliable_irrefl a = fl.lt_irrefl a.online_score

  more_reliable_trans :
      (a b c : Disk fl.F)
      → more_reliable fl a b ≡ true
      → more_reliable fl b c ≡ true
      → more_reliable fl a c ≡ true
  unfolding more_reliable
  more_reliable_trans a b c h k = fl.lt_trans c.online_score b.online_score a.online_score k h

  module _ (tiers : List Tier) (Q : Tier → Type 0)
      (means : (t : Tier) → (contains t tiers ≡ true) ↔ Q t) where
    admits-Fits : (d : Disk fl.F) → admits fl dir tiers cfg d ≡ true → Fits Q d
    admits-Fits d h =
        let (apart, tier, room) = (admits_iff tiers d).0 h in (apart, (means d.tier).0 tier, room)

    Fits-admits : (d : Disk fl.F) → Fits Q d → admits fl dir tiers cfg d ≡ true
    Fits-admits d (apart, tier, room) = (admits_iff tiers d).1 (apart, (means d.tier).1 tier, room)

    best-Plans :
        (d : Disk fl.F)
        → IsBest (admits fl dir tiers cfg) (more_reliable fl) candidates d
        → Plans Q (plan_to fl dir d)
    unfolding more_reliable
    best-Plans d b =
        (d, b.member, admits-Fits d b.admitted, refl, λ e m f. b.best e m (Fits-admits e f))

    select_target-Plans :
        (p : MigrationPlan) → select_target fl dir candidates tiers cfg ≡ some p → Plans Q p
    unfolding select_target
    select_target-Plans p h =
        elim (Option-cases (choose (admits fl dir tiers cfg) (more_reliable fl) candidates)) [
          | inl n ↦ cc
          | inr (d, e) ↦ subst (Plans Q) (ground arith) (
              best-Plans d
                (choose-IsBest _ _ more_reliable_irrefl more_reliable_trans candidates e))
        ]

    select_target-Nobody : select_target fl dir candidates tiers cfg ≡ none → Nobody Q
    unfolding select_target
    select_target-Nobody h d m f =
        let c =
          choose-none_iff (admits fl dir tiers cfg) (more_reliable fl) more_reliable_irrefl
            more_reliable_trans candidates in
        cc (c.0 (ground arith) d m, Fits-admits d f)

  abbrev selected : List Tier → Option MigrationPlan
  selected tiers = select_target fl dir candidates tiers cfg

  plan_migration-some :
      (p : MigrationPlan)
      → plan_migration fl dir candidates cfg ≡ some p
      → (target ≢ dir.tier)
        × ((selected (target ∷ []) ≡ some p)
            ⊎ ((selected (target ∷ []) ≡ none) × (selected (adjacent target) ≡ some p)))
  unfolding plan_migration
  plan_migration-some p h = ground (arith, eq_iff target dir.tier)

  -- A plan is made only for a directory outside the tier that its temperature asks for. It goes to a disk of
  -- that tier with the highest score of those that have room, are not the directory's own and are in the tier,
  -- and if there is none, in the same way to a tier beside it.
  pub plan_migration-Plans :
      (p : MigrationPlan)
      → plan_migration fl dir candidates cfg ≡ some p
      → (t : Tier) × IsTarget t
        × (t ≢ dir.tier)
        × (Plans (λ u. u ≡ t) p ⊎ (Nobody (λ u. u ≡ t) × Plans (IsBeside t) p))
  plan_migration-Plans p h =
      let (apart, from) = plan_migration-some p h in
      (
        target,
        target-IsTarget,
        apart,
        elim from [
          | inl e ↦
              inl (select_target-Plans (target ∷ []) (λ u. u ≡ target) (single_iff target) p e)
          | inr (n, e) ↦ inr (
            select_target-Nobody (target ∷ []) (λ u. u ≡ target) (single_iff target) n,
            select_target-Plans (adjacent target) (IsBeside target) (adjacent_iff target) p e,
          )
        ],
      )
