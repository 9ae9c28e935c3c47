-- ===== src/Cluster/Agreement.antt =====
-- Two nodes that see the same nodes elect the same coordinator.
use mathlib.Core.List.{Memᴰ}
use immich_go_server.Prelude.{
  negsuc, ◌≡◌, ◌≢◌, ◌↔◌, ◌⊎◌, sym, ◌∙◌, inl, inr, true, false, List, ◌∷◌, arith, less_total, All,
  All-mem, All-of_mem,
}
use immich_go_server.Float64.{Float64}
use immich_go_server.Model.{Node}
use immich_go_server.Cluster.{elect_coordinator}
use immich_go_server.Cluster.Election.{beats, elect_coordinator_best}

module _ (fl : Float64) where
  -- Scores that are numbers can be compared.
  abbrev pub IsComparable : fl.F → fl.F → Type 0
  IsComparable a b = (fl.lt a b ≡ true) ⊎ ((fl.lt b a ≡ true) ⊎ (fl.eq a b ≡ true))

  unbeaten_same :
      (a b : Node fl.F)
      → IsComparable a.online_score b.online_score
      → beats fl a b ≡ false
      → beats fl b a ≡ false
      → a.node_id ≡ b.node_id
  unbeaten_same a b (inl lower) na nb = absurd (ground (arith, lower, na, nb))
  unbeaten_same a b (inr (inl higher)) na nb = absurd (ground (arith, higher, na, nb))
  unbeaten_same a b (inr (inr same)) na nb =
      less_total a.node_id b.node_id (ground (arith, same, na))
        (ground (arith, fl.eq_sym a.online_score b.online_score, same, nb))

  -- Two nodes that have heard from the same nodes, in whatever order, elect the same coordinator, if the
  -- nodes have ids and scores above -1 that can be compared.
  pub elect_coordinator_agreement :
      (n m : Node fl.F) (ns ms : List (Node fl.F))
      → All (λ a. a.node_id ≢ "") (n ∷ ns)
      → fl.lt (fl.of_int (negsuc 0)) n.online_score ≡ true
      → fl.lt (fl.of_int (negsuc 0)) m.online_score ≡ true
      → ((a : Node fl.F) → Memᴰ a (n ∷ ns) ↔ Memᴰ a (m ∷ ms))
      → ((a b : Node fl.F)
          → Memᴰ a (n ∷ ns)
          → Memᴰ b (n ∷ ns)
          → IsComparable a.online_score b.online_score)
      → elect_coordinator fl (n ∷ ns) ≡ elect_coordinator fl (m ∷ ms)
  elect_coordinator_agreement n m ns ms named high high' same comparable =
      let (a, elected, there, best) = elect_coordinator_best fl n ns named high in
      let named' =
        All-of_mem (λ b. b.node_id ≢ "") (m ∷ ms)
          (λ b k. All-mem (λ c. c.node_id ≢ "") (n ∷ ns) named ((same b).1 k)) in
      let (b, elected', there', best') = elect_coordinator_best fl m ms named' high' in
      elected
      ∙ unbeaten_same a b (comparable a b there ((same b).1 there'))
          (All-mem (λ c. beats fl c b ≡ false) (m ∷ ms) best' ((same a).0 there))
          (All-mem (λ c. beats fl c a ≡ false) (n ∷ ns) best ((same b).1 there'))
      ∙ sym elected'
