-- ===== src/Balancer/Replica.antt =====
-- The disk for a further replica of an asset.
pub mod Nobody
use mathlib.Core.List.{Memᴰ}
use mathlib.Core.List.Memᴰ
use mathlib.Core.Bool.{false≢true}
use immich_go_server.Prelude.{
  String, ◌≡◌, ◌≢◌, refl, ◌↔◌, Bool, true, false, not, ap, ◌∙◌, List, [], ◌∷◌, none, some, arith,
  IsBest, choose-IsBest, choose-none_iff, eq_iff, ◌==◌, contains, include, contains-include,
  mem-retain, mem_retain_of, Bool-cases, inl, inr, sym, ◌≤ℤ◌, subst, false_of_not, sub64,
}
use immich_go_server.Float64.{Float64}
use immich_go_server.Config.{Config}
use immich_go_server.Model.{Disk, Asset, Tier, tier_cold}
use immich_go_server.Model
use immich_go_server.Space.{hard_reserve_floor}
use immich_go_server.Balancer.{
  own_replicas, replica_disks, replica_nodes, sole, any_tier, by_serial, replica_score, accepts,
  outscores, select_replica_target,
}

-- The collected sets hold exactly the disks and the nodes of the replicas.
contains-replica_disks :
    (rs : List Model.Replica) (r : Model.Replica)
    → Memᴰ r rs
    → contains r.disk_serial (replica_disks rs) ≡ true
unfolding replica_disks
contains-replica_disks [] r m = absurd (Memᴰ.not-nil m)
contains-replica_disks (x ∷ rs) r (Memᴰ.head e) = ground (
  arith,
  contains-include x.disk_serial r.disk_serial (replica_disks rs),
  eq_iff x.disk_serial r.disk_serial,
)
contains-replica_disks (x ∷ rs) r (Memᴰ.tail m) = ground (
  arith,
  contains-include x.disk_serial r.disk_serial (replica_disks rs),
  contains-replica_disks rs r m,
)

-- If all replicas are on one node, and there is one, `sole` names that node.
abbrev pub AllOn : String → List Model.Replica → Type 0
AllOn n rs = (r : Model.Replica) → Memᴰ r rs → r.node_id ≡ n

include_again : (n m : String) → m ≡ n → include m (n ∷ []) ≡ n ∷ []
unfolding include
include_again n m e = ground (arith, eq_iff n m)

include_first : (n m : String) → m ≡ n → include m [] ≡ n ∷ []
unfolding include
include_first n m e = ground arith

replica_nodes-AllOn :
    (n : String) (r : Model.Replica) (rs : List Model.Replica)
    → AllOn n (r ∷ rs)
    → replica_nodes (r ∷ rs) ≡ n ∷ []
unfolding replica_nodes
replica_nodes-AllOn n r [] all = include_first n r.node_id (all r (Memᴰ.head refl))
replica_nodes-AllOn n r (x ∷ rs) all =
    ap (include r.node_id) (replica_nodes-AllOn n x rs (λ y m. all y (Memᴰ.tail m)))
    ∙ include_again n r.node_id (all r (Memᴰ.head refl))

pub sole-AllOn :
    (n : String) (r : Model.Replica) (rs : List Model.Replica)
    → Memᴰ r rs
    → AllOn n rs
    → sole (replica_nodes rs) ≡ n
unfolding sole
sole-AllOn n r [] m all = absurd (Memᴰ.not-nil m)
sole-AllOn n r (x ∷ rs) m all = rw (replica_nodes-AllOn n x rs all)

module _ (fl : Float64) (asset : Asset) (existing : List Model.Replica)
    (all_disks : List (Disk fl.F)) (cfg : Config fl.F) where
  abbrev pub held : List String
  held = replica_disks (own_replicas asset existing)

  abbrev pub only_node : String
  only_node = sole (replica_nodes (own_replicas asset existing))

  abbrev pub has_cold : Bool
  has_cold = any_tier fl (λ t. t == tier_cold) (by_serial fl all_disks []) held

  abbrev pub has_hot_warm : Bool
  has_hot_warm = any_tier fl (λ t. not (t == tier_cold)) (by_serial fl all_disks []) held

  -- The score of a disk, given where the asset is now.
  abbrev pub score : Disk fl.F → fl.F
  score = replica_score fl has_cold has_hot_warm

  -- The disk may take the replica.
  abbrev pub Accepted : Disk fl.F → Type 0
  Accepted d = accepts fl asset held only_node cfg d ≡ true

  pub outscores_irrefl : (a : Disk fl.F) → outscores fl has_cold has_hot_warm a a ≡ false
  unfolding outscores
  outscores_irrefl a = fl.lt_irrefl (score a)

  pub outscores_trans :
      (a b c : Disk fl.F)
      → outscores fl has_cold has_hot_warm a b ≡ true
      → outscores fl has_cold has_hot_warm b c ≡ true
      → outscores fl has_cold has_hot_warm a c ≡ true
  unfolding outscores
  outscores_trans a b c h k = fl.lt_trans (score c) (score b) (score a) k h

  select-IsBest :
      (d : Disk fl.F)
      → select_replica_target fl asset existing all_disks cfg ≡ some d
      → IsBest
          (accepts fl asset held only_node cfg)
          (outscores fl has_cold has_hot_warm)
          all_disks
          d
  unfolding select_replica_target
  select-IsBest d h = choose-IsBest _ _ outscores_irrefl outscores_trans all_disks h

  pub accepts_apart :
      (d : Disk fl.F) (r : Model.Replica)
      → Accepted d
      → Memᴰ r existing
      → r.asset_id ≡ asset.asset_id
      → r.disk_serial ≢ d.disk_serial
  unfolding accepts
  accepts_apart d r a m same on =
      let here =
        contains-replica_disks (own_replicas asset existing) r
          (mem_retain_of _ existing m ((eq_iff r.asset_id asset.asset_id).1 same)) in
      ground (arith, here)

  pub accepts_floor :
      (d : Disk fl.F)
      → Accepted d
      → hard_reserve_floor fl d cfg ≤ℤ sub64 d.free_bytes asset.size_bytes
  unfolding accepts
  accepts_floor d a = ground arith

  pub accepts_node : (d : Disk fl.F) → Accepted d → only_node ≢ "" → d.mounted_node_id ≢ only_node
  unfolding accepts
  accepts_node d a named = ground (arith, eq_iff only_node "", eq_iff d.mounted_node_id only_node)

  -- The chosen disk holds no replica of the asset yet and keeps the hard floor after the write; it is
  -- on another node if all replicas so far are on one named node; and no other disk that may take
  -- the replica scores higher.
  pub select_replica_target_spread :
      (d : Disk fl.F)
      → select_replica_target fl asset existing all_disks cfg ≡ some d
      → Memᴰ d all_disks
        × ((r : Model.Replica)
            → Memᴰ r existing
            → r.asset_id ≡ asset.asset_id
            → r.disk_serial ≢ d.disk_serial)
        × (hard_reserve_floor fl d cfg ≤ℤ sub64 d.free_bytes asset.size_bytes)
        × ((n : String) (r : Model.Replica)
            → n ≢ ""
            → Memᴰ r (own_replicas asset existing)
            → AllOn n (own_replicas asset existing)
            → d.mounted_node_id ≢ n)
        × ((e : Disk fl.F) → Memᴰ e all_disks → Accepted e → fl.lt (score d) (score e) ≡ false)
  unfolding outscores
  select_replica_target_spread d h =
      let b = select-IsBest d h in
      (
        b.member,
        λ r m same. accepts_apart d r b.admitted m same,
        accepts_floor d b.admitted,
        λ n r named m all.
            subst (λ k. k ≢ "" → d.mounted_node_id ≢ k)
              (sole-AllOn n r (own_replicas asset existing) m all) (accepts_node d b.admitted)
              named,
        λ e m a. b.best e m a,
      )
