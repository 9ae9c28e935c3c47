-- ===== src/Balancer/Replica/Nobody.antt =====
-- When no disk is chosen for a further replica.
use mathlib.Core.List.{Memᴰ}
use mathlib.Core.List.Memᴰ
use mathlib.Core.Bool.{false≢true}
use immich_go_server.Prelude.{
  String, ◌≡◌, ◌≢◌, refl, ◌↔◌, true, false, ap, ◌∙◌, List, [], ◌∷◌, none, arith, choose-none_iff,
  eq_iff, ◌==◌, contains, contains-include, mem-retain, mem_retain_of, Bool-cases, inl, inr, sym,
  ◌≤ℤ◌, subst, false_of_not, sub64,
}
use immich_go_server.Float64.{Float64}
use immich_go_server.Config.{Config}
use immich_go_server.Model.{Disk, Asset}
use immich_go_server.Model
use immich_go_server.Space.{hard_reserve_floor}
use immich_go_server.Balancer.{
  own_replicas, replica_disks, replica_nodes, sole, accepts, outscores, select_replica_target,
}
use immich_go_server.Balancer.Replica.{
  AllOn, sole-AllOn, held, only_node, has_cold, has_hot_warm, Accepted, outscores_irrefl,
  outscores_trans, accepts_apart, accepts_floor, accepts_node,
}

-- The sets that are collected hold nothing but the disks and the nodes of the replicas.
replica_disks-mem :
    (k : String) (rs : List Model.Replica)
    → contains k (replica_disks rs) ≡ true
    → (r : Model.Replica) × Memᴰ r rs × (r.disk_serial ≡ k)
unfolding replica_disks contains
replica_disks-mem k [] h = cc
replica_disks-mem k (x ∷ rs) h = elim (Bool-cases (x.disk_serial == k)) [
  | inl e ↦ (x, Memᴰ.head refl, (eq_iff x.disk_serial k).0 e)
  | inr n ↦
      let (r, m, e) =
        replica_disks-mem k rs
          (ground (arith, contains-include x.disk_serial k (replica_disks rs))) in
      (r, Memᴰ.tail m, e)
]

contains-replica_nodes :
    (rs : List Model.Replica) (r : Model.Replica)
    → Memᴰ r rs
    → contains r.node_id (replica_nodes rs) ≡ true
unfolding replica_nodes
contains-replica_nodes [] r m = absurd (Memᴰ.not-nil m)
contains-replica_nodes (x ∷ rs) r (Memᴰ.head e) =
    ground
      (arith, contains-include x.node_id r.node_id (replica_nodes rs), eq_iff x.node_id r.node_id)
contains-replica_nodes (x ∷ rs) r (Memᴰ.tail m) =
    ground (
      arith,
      contains-include x.node_id r.node_id (replica_nodes rs),
      contains-replica_nodes rs r m,
    )

in_single : (n k : String) → contains k (n ∷ []) ≡ true → k ≡ n
unfolding contains
in_single n k h = ground (arith, eq_iff n k)

sole-of : (n : String) (ns : List String) → n ≢ "" → sole ns ≡ n → ns ≡ n ∷ []
unfolding sole
sole-of n [] named e = absurd (named (sym e))
sole-of n (m ∷ []) named e = ap (λ k. k ∷ []) e
sole-of n (m ∷ k ∷ ks) named e = absurd (named (sym e))

nodes-mem :
    (n : String) (rs : List Model.Replica)
    → replica_nodes rs ≡ n ∷ []
    → (r : Model.Replica) × Memᴰ r rs
unfolding replica_nodes
nodes-mem n [] e = cc
nodes-mem n (x ∷ rs) e = (x, Memᴰ.head refl)

-- A node that `sole` names has all replicas, of which there is one.
sole-mem :
    (n : String) (rs : List Model.Replica)
    → n ≢ ""
    → sole (replica_nodes rs) ≡ n
    → ((r : Model.Replica) × Memᴰ r rs) × AllOn n rs
sole-mem n rs named e =
    let single = sole-of n (replica_nodes rs) named e in
    (
      nodes-mem n rs single,
      λ r m.
          in_single n r.node_id
            (subst (λ l. contains r.node_id l ≡ true) single (contains-replica_nodes rs r m)),
    )

module _ (fl : Float64) (asset : Asset) (existing : List Model.Replica)
    (all_disks : List (Disk fl.F)) (cfg : Config fl.F) where
  -- The disk holds no replica of the asset, keeps the hard floor after the write, and is on another node if
  -- all replicas of the asset are on one named node.
  abbrev pub MayTake : Disk fl.F → Type 0
  MayTake d =
      ((r : Model.Replica)
        → Memᴰ r existing
        → r.asset_id ≡ asset.asset_id
        → r.disk_serial ≢ d.disk_serial)
      × (hard_reserve_floor fl d cfg ≤ℤ sub64 d.free_bytes asset.size_bytes)
      × ((n : String) (r : Model.Replica)
          → n ≢ ""
          → Memᴰ r existing
          → r.asset_id ≡ asset.asset_id
          → ((q : Model.Replica) → Memᴰ q existing → q.asset_id ≡ asset.asset_id → q.node_id ≡ n)
          → d.mounted_node_id ≢ n)

  own-mem :
      (r : Model.Replica)
      → Memᴰ r existing
      → r.asset_id ≡ asset.asset_id
      → Memᴰ r (own_replicas asset existing)
  own-mem r m same =
      mem_retain_of (λ q. q.asset_id == asset.asset_id) existing m
        ((eq_iff r.asset_id asset.asset_id).1 same)

  of_own :
      (r : Model.Replica)
      → Memᴰ r (own_replicas asset existing)
      → Memᴰ r existing × (r.asset_id ≡ asset.asset_id)
  of_own r m =
      let (there, mine) = mem-retain (λ q. q.asset_id == asset.asset_id) existing m in
      (there, (eq_iff r.asset_id asset.asset_id).0 mine)

  Accepted-MayTake : (d : Disk fl.F) → Accepted fl asset existing all_disks cfg d → MayTake d
  Accepted-MayTake d a = (
    (λ r m same. (accepts_apart fl asset existing all_disks cfg) d r a m same),
    accepts_floor fl asset existing all_disks cfg d a,
    λ n r named m same all.
        subst (λ k. k ≢ "" → d.mounted_node_id ≢ k)
          (sole-AllOn n r (own_replicas asset existing) (own-mem r m same)
            (λ q mq. let (there, mine) = of_own q mq in all q there mine))
          (accepts_node fl asset existing all_disks cfg d a) named,
  )

  MayTake-held :
      (d : Disk fl.F)
      → MayTake d
      → contains d.disk_serial (held fl asset existing all_disks cfg) ≡ false
  MayTake-held d may = false_of_not λ h.
      let (r, m, e) = replica_disks-mem d.disk_serial (own_replicas asset existing) h in
      let (there, mine) = of_own r m in may.0 r there mine e

  MayTake-node :
      (d : Disk fl.F)
      → MayTake d
      → (only_node fl asset existing all_disks cfg) ≢ ""
      → d.mounted_node_id ≢ (only_node fl asset existing all_disks cfg)
  MayTake-node d may named =
      let ((r, m), all) =
        sole-mem (only_node fl asset existing all_disks cfg) (own_replicas asset existing) named
          refl in
      let (there, mine) = of_own r m in
      may.2 (only_node fl asset existing all_disks cfg) r named there mine
        (λ q mq same. all q (own-mem q mq same))

  MayTake-Accepted : (d : Disk fl.F) → MayTake d → Accepted fl asset existing all_disks cfg d
  unfolding accepts
  MayTake-Accepted d may =
      let apart = MayTake-held d may in
      let elsewhere = MayTake-node d may in
      let floor = may.1 in
      ground (
        arith,
        apart,
        eq_iff (only_node fl asset existing all_disks cfg) "",
        eq_iff d.mounted_node_id (only_node fl asset existing all_disks cfg),
      )

  -- No disk is chosen exactly when every disk holds a replica of the asset already, or does not keep the hard
  -- floor after the write, or is on the one named node that all replicas are on.
  pub select_replica_target-none :
      (select_replica_target fl asset existing all_disks cfg ≡ none)
      ↔ ((d : Disk fl.F) → Memᴰ d all_disks → ¬ MayTake d)
  unfolding select_replica_target
  select_replica_target-none =
      let c =
        choose-none_iff
          (accepts fl asset (held fl asset existing all_disks cfg)
            (only_node fl asset existing all_disks cfg) cfg)
          (outscores fl (has_cold fl asset existing all_disks cfg)
            (has_hot_warm fl asset existing all_disks cfg))
          (outscores_irrefl fl asset existing all_disks cfg)
          (outscores_trans fl asset existing all_disks cfg) all_disks in
      (
        (λ h d m a.
            let yes = MayTake-Accepted d a in let no = c.0 h d m in false≢true (sym no ∙ yes)),
        λ nobody. c.1 (λ d m. false_of_not (λ a. nobody d m (Accepted-MayTake d a))),
      )
