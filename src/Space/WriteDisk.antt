-- ===== src/Space/WriteDisk.antt =====
-- The disk that an upload goes to, against a description that knows nothing of the loops.
use mathlib.Core.List.{Memᴰ}
use immich_go_server.Prelude.{
  ℕ, ◌<◌, ℤ, ◌≡◌, sym, ◌∙◌, ◌⊎◌, inl, inr, Bool, true, false, List, [], ◌∷◌, none, some, arith,
  ◌≤ℤ◌, ◌↔◌, All-mem, mem_retain_of, All, All-retain, mem-retain, first_best, first_best-mem,
  first_best-best, Option-cases, eq_iff, ◌==◌, if◌then◌else◌, retain, retain-nil, first_best-none,
  ◌&&◌,
}
use immich_go_server.Float64.{Float64}
use immich_go_server.Config.{Config}
use immich_go_server.Model.{Disk, Tier, tier_hot, tier_warm, tier_cold}
use immich_go_server.Space.{
  meets_hard_floor, keeps_soft_target, more_free, pool, by_preference, select_write_disk,
}

-- Hot before warm before cold.
abbrev pub preference : Tier → ℕ
preference t = if t == tier_hot then 0 else if t == tier_warm then 1 else 2

-- One of the three tiers that the program knows.
abbrev pub IsKnown : Tier → Type 0
IsKnown t = (t ≡ tier_hot) ⊎ (t ≡ tier_warm) ⊎ (t ≡ tier_cold)

abbrev from_cold : List Tier
from_cold = tier_cold ∷ []

abbrev from_warm : List Tier
from_warm = tier_warm ∷ from_cold

module _ (fl : Float64) (size : ℤ) (cfg : Config fl.F) where
  -- After the write `d` keeps the hard floor and the soft target of its tier.
  pub record Suits (d : Disk fl.F) : Type 0 where
    pub known : IsKnown d.tier
    pub floor : meets_hard_floor fl d size cfg ≡ true
    pub soft : keeps_soft_target fl d size d.tier cfg ≡ true

  -- `e` is in a less preferred tier, or in the same tier with no more room.
  abbrev pub NotBetter : Disk fl.F → Disk fl.F → Type 0
  NotBetter d e =
      (preference d.tier < preference e.tier) ⊎ ((d.tier ≡ e.tier) × (e.free_bytes ≤ℤ d.free_bytes))

  more_free_irrefl : (a : Disk fl.F) → more_free fl a a ≡ false
  unfolding more_free
  more_free_irrefl a = ground arith

  more_free_trans :
      (a b c : Disk fl.F)
      → more_free fl a b ≡ true
      → more_free fl b c ≡ true
      → more_free fl a c ≡ true
  unfolding more_free
  more_free_trans a b c h k = ground arith

  fits : Tier → Disk fl.F → Bool
  fits t d = d.tier == t && keeps_soft_target fl d size t cfg

  -- What one round of the loop finds.
  pool-some :
      (t : Tier) (cands : List (Disk fl.F)) (d : Disk fl.F)
      → first_best (more_free fl) (pool fl cands size cfg t) ≡ some d
      → Memᴰ d cands
        × (fits t d ≡ true)
        × All (λ e. fits t e ≡ true → more_free fl e d ≡ false) cands
  unfolding fits
  pool-some t cands d h = (
    (mem-retain _ cands (first_best-mem (more_free fl) _ h)).0,
    (mem-retain _ cands (first_best-mem (more_free fl) _ h)).1,
    All-retain _ _ cands (first_best-best (more_free fl) more_free_irrefl more_free_trans _ h),
  )

  pool-none :
      (t : Tier) (cands : List (Disk fl.F))
      → first_best (more_free fl) (pool fl cands size cfg t) ≡ none
      → All (λ e. fits t e ≡ false) cands
  unfolding fits
  pool-none t cands h = retain-nil _ cands (first_best-none (more_free fl) _ h)

  abbrev tiers : List Tier
  tiers = tier_hot ∷ tier_warm ∷ tier_cold ∷ []

  by_preference-some :
      (t : Tier) (ts : List Tier) (cands : List (Disk fl.F)) (d : Disk fl.F)
      → by_preference fl cands size cfg (t ∷ ts) ≡ some d
      → (first_best (more_free fl) (pool fl cands size cfg t) ≡ some d)
        ⊎ ((first_best (more_free fl) (pool fl cands size cfg t) ≡ none)
            × (by_preference fl cands size cfg ts ≡ some d))
  unfolding by_preference
  by_preference-some t ts cands d h = ground arith

  by_preference-none' :
      (t : Tier) (ts : List Tier) (cands : List (Disk fl.F))
      → by_preference fl cands size cfg (t ∷ ts) ≡ none
      → (first_best (more_free fl) (pool fl cands size cfg t) ≡ none)
        × (by_preference fl cands size cfg ts ≡ none)
  unfolding by_preference
  by_preference-none' t ts cands h = ground arith

  module _ (d e : Disk fl.F) (fe : fits e.tier e ≡ true) where
    NotBetter-hot :
        fits tier_hot d ≡ true → (fits tier_hot e ≡ true → more_free fl e d ≡ false) → NotBetter d e
    unfolding fits more_free
    NotBetter-hot hd he =
        ground (arith, eq_iff d.tier tier_hot, eq_iff e.tier tier_hot, eq_iff e.tier tier_warm)

    NotBetter-warm :
        fits tier_warm d ≡ true
        → fits tier_hot e ≡ false
        → (fits tier_warm e ≡ true → more_free fl e d ≡ false)
        → NotBetter d e
    unfolding fits more_free
    NotBetter-warm hd ne he = ground (
      arith,
      eq_iff d.tier tier_warm,
      eq_iff e.tier tier_hot,
      eq_iff e.tier tier_warm,
      eq_iff d.tier e.tier,
      eq_iff tier_warm e.tier,
    )

    NotBetter-cold :
        IsKnown e.tier
        → fits tier_cold d ≡ true
        → fits tier_hot e ≡ false
        → fits tier_warm e ≡ false
        → (fits tier_cold e ≡ true → more_free fl e d ≡ false)
        → NotBetter d e
    unfolding fits more_free
    NotBetter-cold known hd nh nw he = ground (
      arith,
      eq_iff d.tier tier_cold,
      eq_iff e.tier tier_hot,
      eq_iff e.tier tier_warm,
      eq_iff e.tier tier_cold,
    )

  fits_own : (t : Tier) (d : Disk fl.F) → fits t d ≡ true → (d.tier ≡ t) × (fits d.tier d ≡ true)
  unfolding fits
  fits_own t d h = ground (arith, eq_iff d.tier t, eq_iff d.tier d.tier)

  fits_iff :
      (d : Disk fl.F) → (fits d.tier d ≡ true) ↔ (keeps_soft_target fl d size d.tier cfg ≡ true)
  unfolding fits
  fits_iff d = ground (arith, eq_iff d.tier d.tier)

  -- The loop over the tiers returns a fitting disk that no known disk beats.
  abbrev Found : List (Disk fl.F) → Disk fl.F → Type 0
  Found cands d =
      Memᴰ d cands
      × IsKnown d.tier
      × (fits d.tier d ≡ true)
      × ((e : Disk fl.F) → Memᴰ e cands → IsKnown e.tier → fits e.tier e ≡ true → NotBetter d e)

  by_preference-Found :
      (cands : List (Disk fl.F)) (d : Disk fl.F)
      → by_preference fl cands size cfg (tier_hot ∷ tier_warm ∷ tier_cold ∷ []) ≡ some d
      → Found cands d
  unfolding by_preference
  by_preference-Found cands d h = elim (by_preference-some tier_hot from_warm cands d h) [
    | inl found ↦
        let (m, f, best) = pool-some tier_hot cands d found in
        (
          m,
          inl (fits_own tier_hot d f).0,
          (fits_own tier_hot d f).1,
          λ e me ke fe. NotBetter-hot d e fe f (All-mem _ cands best me),
        )
    | inr (no_hot, h') ↦ elim (by_preference-some tier_warm from_cold cands d h') [
      | inl found ↦
          let (m, f, best) = pool-some tier_warm cands d found in
          (
            m,
            inr (inl (fits_own tier_warm d f).0),
            (fits_own tier_warm d f).1,
            λ e me ke fe.
                NotBetter-warm d e fe f (All-mem _ cands (pool-none _ cands no_hot) me)
                  (All-mem _ cands best me),
          )
      | inr (no_warm, h'') ↦ elim (by_preference-some tier_cold [] cands d h'') [
        | inl found ↦
            let (m, f, best) = pool-some tier_cold cands d found in
            (
              m,
              inr (inr (fits_own tier_cold d f).0),
              (fits_own tier_cold d f).1,
              λ e me ke fe.
                  NotBetter-cold d e fe ke f (All-mem _ cands (pool-none _ cands no_hot) me)
                    (All-mem _ cands (pool-none _ cands no_warm) me) (All-mem _ cands best me),
            )
        | inr (_, never) ↦ cc
      ]
    ]
  ]

  by_preference-none :
      (cands : List (Disk fl.F)) (e : Disk fl.F)
      → by_preference fl cands size cfg (tier_hot ∷ tier_warm ∷ tier_cold ∷ []) ≡ none
      → Memᴰ e cands
      → IsKnown e.tier
      → fits e.tier e ≡ true
      → ⊥
  by_preference-none cands e h m known fe =
      let (no_hot, h') = by_preference-none' tier_hot from_warm cands h in
      let (no_warm, h'') = by_preference-none' tier_warm from_cold cands h' in
      let (no_cold, _) = by_preference-none' tier_cold [] cands h'' in
      ground (
        arith,
        All-mem _ cands (pool-none _ cands no_hot) m,
        All-mem _ cands (pool-none _ cands no_warm) m,
        All-mem _ cands (pool-none _ cands no_cold) m,
      )

  select_by_preference :
      (local : List (Disk fl.F))
      → select_write_disk fl local size cfg
        ≡ by_preference fl
            (retain (λ d. meets_hard_floor fl d size cfg) local)
            size
            cfg
            (tier_hot ∷ tier_warm ∷ tier_cold ∷ [])
  unfolding select_write_disk
  select_by_preference local = ground arith

  -- The chosen disk is one of the local disks, it suits the write, and every other local disk that
  -- suits it stands in a less preferred tier or, in the same tier, has no more free bytes.
  pub select_write_disk_best :
      (local : List (Disk fl.F)) (d : Disk fl.F)
      → select_write_disk fl local size cfg ≡ some d
      → Memᴰ d local × Suits d × ((e : Disk fl.F) → Memᴰ e local → Suits e → NotBetter d e)
  select_write_disk_best local d h =
      let (m, known, soft, best) = by_preference-Found _ d (sym (select_by_preference local) ∙ h) in
      let (there, floor) = mem-retain _ local m in
      (
        there,
        record { known = known; floor = floor; soft = (fits_iff d).0 soft },
        λ e me s. best e (mem_retain_of _ local me s.floor) s.known ((fits_iff e).1 s.soft),
      )

  -- No disk is chosen exactly when none of the local disks suits the write.
  pub select_write_disk-none_iff :
      (local : List (Disk fl.F))
      → (select_write_disk fl local size cfg ≡ none) ↔ ((e : Disk fl.F) → Memᴰ e local → ¬ Suits e)
  select_write_disk-none_iff local = (
    (λ h e m s.
        by_preference-none _ e (sym (select_by_preference local) ∙ h)
          (mem_retain_of _ local m s.floor) s.known ((fits_iff e).1 s.soft)),
    (λ nobody. elim (Option-cases (select_write_disk fl local size cfg)) [
      | inl n ↦ n
      | inr (d, h) ↦ let (m, s, _) = select_write_disk_best local d h in absurd (nobody d m s)
    ]),
  )
