-- ===== src/Cluster/Election.antt =====
-- The election of the coordinator.
use mathlib.Core.List.{Memᴰ}
use immich_go_server.Prelude.{
  negsuc, ◌≡◌, ◌≢◌, refl, sym, ap, ◌∙◌, inl, inr, Bool, true, false, ◌&&◌, ◌||◌, List, [], ◌∷◌,
  arith, if◌then◌else◌, ◌==◌, eq_iff, less, less_irrefl, less_trans, All, best_from, first_best-mem,
  first_best-best, Bool-cases,
}
use immich_go_server.Float64.{Float64}
use immich_go_server.Model.{Node}
use immich_go_server.Cluster.{elect_from, elect_coordinator}

module _ (fl : Float64) where
  abbrev pub beats : Node fl.F → Node fl.F → Bool
  beats n b =
      fl.lt b.online_score n.online_score
      || (fl.eq n.online_score b.online_score && less n.node_id b.node_id)

  beats_irrefl : (n : Node fl.F) → beats n n ≡ false
  beats_irrefl n = ground (arith, less_irrefl n.node_id, fl.lt_irrefl n.online_score)

  beats_trans : (a b c : Node fl.F) → beats a b ≡ true → beats b c ≡ true → beats a c ≡ true
  beats_trans a b c h k = ground (
    arith,
    less_trans a.node_id b.node_id c.node_id,
    fl.lt_trans c.online_score b.online_score a.online_score,
    fl.eq_trans a.online_score b.online_score c.online_score,
    fl.eq_sym b.online_score c.online_score,
    fl.eq_sym a.online_score b.online_score,
    fl.eq_lt c.online_score b.online_score a.online_score,
    fl.lt_eq c.online_score b.online_score a.online_score,
  )

  wins_iff :
      (n b : Node fl.F)
      → b.node_id ≢ ""
      → (fl.lt b.online_score n.online_score
          || (fl.eq n.online_score b.online_score && (b.node_id == "" || less n.node_id b.node_id)))
        ≡ beats n b
  wins_iff n b named = ground (arith, eq_iff b.node_id "")

  module _ (b n : Node fl.F) (ns : List (Node fl.F)) where
    elect_won :
        b.node_id ≢ ""
        → beats n b ≡ true
        → elect_from fl b.node_id b.online_score (n ∷ ns)
          ≡ elect_from fl n.node_id n.online_score ns
    unfolding elect_from
    elect_won named y = rw (wins_iff n b named, y) refl

    elect_lost :
        b.node_id ≢ ""
        → beats n b ≡ false
        → elect_from fl b.node_id b.online_score (n ∷ ns)
          ≡ elect_from fl b.node_id b.online_score ns
    unfolding elect_from
    elect_lost named w = rw (wins_iff n b named, w) refl

    best_won :
        beats n b ≡ true → (best_from beats n ns).node_id ≡ (best_from beats b (n ∷ ns)).node_id
    best_won y = ap (λ t. (best_from beats (if t then n else b) ns).node_id) (sym y)

    best_lost :
        beats n b ≡ false → (best_from beats b ns).node_id ≡ (best_from beats b (n ∷ ns)).node_id
    best_lost w = ap (λ t. (best_from beats (if t then n else b) ns).node_id) (sym w)

  -- Once a node has been taken, the loop is the scan for a node that no other beats.
  elect_from_node :
      (b : Node fl.F) (ns : List (Node fl.F))
      → b.node_id ≢ ""
      → All (λ n. n.node_id ≢ "") ns
      → elect_from fl b.node_id b.online_score ns ≡ (best_from beats b ns).node_id
  unfolding elect_from
  elect_from_node b [] named all = refl
  elect_from_node b (n ∷ ns) named all = elim (Bool-cases (beats n b)) [
    | inl y ↦ elect_won b n ns named y ∙ elect_from_node n ns all.0 all.1 ∙ best_won b n ns y
    | inr w ↦ elect_lost b n ns named w ∙ elect_from_node b ns named all.1 ∙ best_lost b n ns w
  ]

  -- Among nodes with ids and with scores above -1 (a score is a sum of seconds) the elected coordinator
  -- is one of them, and none beats it: none has a higher score, and none with an equal score a smaller id.
  pub elect_coordinator_best :
      (n : Node fl.F) (ns : List (Node fl.F))
      → All (λ a. a.node_id ≢ "") (n ∷ ns)
      → fl.lt (fl.of_int (negsuc 0)) n.online_score ≡ true
      → (b : Node fl.F) × (elect_coordinator fl (n ∷ ns) ≡ b.node_id)
        × Memᴰ b (n ∷ ns)
        × All (λ a. beats a b ≡ false) (n ∷ ns)
  unfolding elect_coordinator elect_from
  elect_coordinator_best n ns named positive = (
    best_from beats n (n ∷ ns),
    rw positive (elect_from_node n ns named.0 named.1 ∙ best_lost n n ns (beats_irrefl n)),
    first_best-mem beats (n ∷ ns) refl,
    first_best-best beats beats_irrefl beats_trans (n ∷ ns) refl,
  )
