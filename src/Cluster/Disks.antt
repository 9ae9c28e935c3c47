-- ===== src/Cluster/Disks.antt =====
-- The record of a disk that several nodes report.
use mathlib.Core.Option.{some-injective}
use immich_go_server.Prelude.{
  String, ◌≡◌, refl, sym, ap, subst, ◌∙◌, inl, inr, true, List, [], ◌∷◌, Option, none, some, arith,
  ◌≤ℤ◌, ◌==◌, eq_iff, All, Assoc, lookup, insert, lookup-insert, Bool-cases,
}
use immich_go_server.Model.{Disk, Node}
use immich_go_server.Cluster.{merge_disk, merged_disk, merge_disks, all_disks, aggregate_disk_stats}

module _ {F : Type 0} where
  -- The record counts at least the seconds of the report, and starts no later.
  abbrev pub Covers : Disk F → Disk F → Type 0
  Covers m e = (e.online_seconds ≤ℤ m.online_seconds) × (m.first_seen_at ≤ℤ e.first_seen_at)

  Covers-trans : (a b c : Disk F) → Covers a b → Covers b c → Covers a c
  Covers-trans a b c h k = omega (arith, h, k)

  merge-Covers : (d cur : Disk F) → Covers (merge_disk d cur) d × Covers (merge_disk d cur) cur
  unfolding merge_disk
  merge-Covers d cur = ground arith

  merged-Covers :
      (d : Disk F) (o : Option (Disk F))
      → Covers (merged_disk d o) d × ((cur : Disk F) → o ≡ some cur → Covers (merged_disk d o) cur)
  merged-Covers d none = (ground arith, λ cur h. cc)
  merged-Covers d (some c) = (
    (merge-Covers d c).0,
    λ cur h. subst (λ x. Covers (merge_disk d c) x) (some-injective c cur h) (merge-Covers d c).1,
  )

  merge_disks-Covers :
      (k : String) (m : Disk F) (ds : List (Disk F)) (merged : Assoc (Disk F))
      → lookup k (merge_disks ds merged) ≡ some m
      → ((cur : Disk F) → lookup k merged ≡ some cur → Covers m cur)
        × All (λ e. ((e.disk_serial == k) ≡ true) → Covers m e) ds
  unfolding merge_disks
  merge_disks-Covers k m [] merged h = (
    (λ cur e.
        subst (λ x. Covers x cur) (some-injective cur m (sym e ∙ h)) (omega arith, omega arith)),
    tt,
  )
  merge_disks-Covers k m (d ∷ ds) merged h =
      let o = lookup d.disk_serial merged in
      let ih = merge_disks-Covers k m ds (insert d.disk_serial (merged_disk d o) merged) h in
      let step = lookup-insert d.disk_serial k (merged_disk d o) merged in
      elim (Bool-cases (d.disk_serial == k)) [
        | inl e ↦
            let here = ih.0 (merged_disk d o) (step ∙ rw e refl) in
            (
              (λ cur f. Covers-trans m (merged_disk d o) cur here (
                  (merged-Covers d o).1 cur
                    (ap (λ j. lookup j merged) ((eq_iff d.disk_serial k).0 e) ∙ f))),
              ((λ _. Covers-trans m (merged_disk d o) d here (merged-Covers d o).0), ih.1),
            )
        | inr ne ↦ ((λ cur f. ih.0 cur (step ∙ rw ne f)), ((λ e. cc), ih.1))
      ]

  -- The merged record of a disk counts at least the seconds online that any report of it gives, and its
  -- first sighting is no later than in any report.
  pub aggregate_disk_stats-Covers :
      (k : String) (m : Disk F) (reports : List (Node F))
      → lookup k (aggregate_disk_stats reports) ≡ some m
      → All (λ e. ((e.disk_serial == k) ≡ true) → Covers m e) (all_disks reports)
  unfolding aggregate_disk_stats
  aggregate_disk_stats-Covers k m reports h = (merge_disks-Covers k m (all_disks reports) [] h).1
