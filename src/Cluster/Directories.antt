-- ===== src/Cluster/Directories.antt =====
-- The placement of the directories that the cluster agrees on: of each directory the newest record.
use mathlib.Core.List.{Memᴰ}
use immich_go_server.Prelude.{
  less, String, ◌≡◌, refl, sym, ap, ◌∙◌, inl, inr, Bool, true, false, List, [], ◌∷◌, Option, none,
  some, arith, ◌==◌, eq_iff, less_irrefl, less_trans, Assoc, lookup, insert, lookup-insert, retain,
  mem-retain, mem_retain_of, All-mem, ◌≤ℤ◌, retain-nil, All, best_from, first_best, first_best-none,
  first_best-mem, first_best-best, Bool-cases,
}
use immich_go_server.Model.{Directory, Node}
use immich_go_server.Cluster.{
  supersedes, placed, merge_directories, all_directories, aggregate_directory_stats,
}

module _ {F : Type 0} where
  supersedes_irrefl : (d : Directory F) → supersedes d d ≡ false
  unfolding supersedes
  supersedes_irrefl d = ground (arith, less_irrefl d.node_id)

  supersedes_trans :
      (a b c : Directory F) → supersedes a b ≡ true → supersedes b c ≡ true → supersedes a c ≡ true
  unfolding supersedes
  supersedes_trans a b c h k = ground (arith, less_trans c.node_id b.node_id a.node_id)

  abbrev of_key : String → Directory F → Bool
  of_key k d = d.dir_key == k

  -- What becomes of the record `o` after the reports `ds`, all of one directory.
  abbrev scan : Option (Directory F) → List (Directory F) → Option (Directory F)
  scan none [] = none
  scan none (d ∷ ds) = some (best_from supersedes d ds)
  scan (some cur) ds = some (best_from supersedes cur ds)

  scan_step :
      (d : Directory F) (o : Option (Directory F)) (ds : List (Directory F))
      → scan (some (placed d o)) ds ≡ scan o (d ∷ ds)
  scan_step d none ds = refl
  scan_step d (some cur) ds = refl

  lookup-merge_directories :
      (k : String) (ds : List (Directory F)) (merged : Assoc (Directory F))
      → lookup k (merge_directories ds merged) ≡ scan (lookup k merged) (retain (of_key k) ds)
  unfolding merge_directories
  lookup-merge_directories k [] merged = ground arith
  lookup-merge_directories k (d ∷ ds) merged = elim (Bool-cases (d.dir_key == k)) [
    | inl e ↦
        lookup-merge_directories k ds (insert d.dir_key (placed d (lookup d.dir_key merged)) merged)
        ∙ rw (lookup-insert d.dir_key k (placed d (lookup d.dir_key merged)) merged, e)
            (scan_step d (lookup d.dir_key merged) (retain (of_key k) ds)
              ∙ ap (λ j. scan (lookup j merged) (d ∷ retain (of_key k) ds))
                  ((eq_iff d.dir_key k).0 e))
    | inr ne ↦
        lookup-merge_directories k ds (insert d.dir_key (placed d (lookup d.dir_key merged)) merged)
        ∙ rw (lookup-insert d.dir_key k (placed d (lookup d.dir_key merged)) merged, ne) refl
  ]

  scan_first : (ds : List (Directory F)) → scan none ds ≡ first_best supersedes ds
  scan_first [] = refl
  scan_first (d ∷ ds) = rw (supersedes_irrefl d) refl

  lookup-aggregate :
      (k : String) (reports : List (Node F))
      → lookup k (aggregate_directory_stats reports)
        ≡ first_best supersedes (retain (of_key k) (all_directories reports))
  unfolding aggregate_directory_stats lookup
  lookup-aggregate k reports =
      lookup-merge_directories k (all_directories reports) []
      ∙ scan_first (retain (of_key k) (all_directories reports))

  not_superseded :
      (e d : Directory F)
      → supersedes e d ≡ false
      → (e.last_eval_at ≤ℤ d.last_eval_at)
        × (e.last_eval_at ≡ d.last_eval_at → less d.node_id e.node_id ≡ false)
  unfolding supersedes
  not_superseded e d h = (ground arith, λ same. ground (arith, same, h))

  -- The merged view has for each directory a record that some node reported, and of the reported
  -- records of the directory none is newer, and none that is as old comes from a node of a greater id.
  pub aggregate_directory_stats_newest :
      (k : String) (reports : List (Node F)) (d : Directory F)
      → lookup k (aggregate_directory_stats reports) ≡ some d
      → Memᴰ d (all_directories reports)
        × (d.dir_key ≡ k)
        × ((e : Directory F)
            → Memᴰ e (all_directories reports)
            → e.dir_key ≡ k
            → (e.last_eval_at ≤ℤ d.last_eval_at)
              × (e.last_eval_at ≡ d.last_eval_at → less d.node_id e.node_id ≡ false))
  aggregate_directory_stats_newest k reports d h =
      let found : first_best supersedes (retain (of_key k) (all_directories reports)) ≡ some d =
        sym (lookup-aggregate k reports) ∙ h in
      let kept =
        mem-retain (of_key k) (all_directories reports) (first_best-mem supersedes _ found) in
      (
        kept.0,
        (eq_iff d.dir_key k).0 kept.1,
        λ e m same. not_superseded e d (
            All-mem _ (retain (of_key k) (all_directories reports))
              (first_best-best supersedes supersedes_irrefl supersedes_trans _ found)
              (mem_retain_of (of_key k) (all_directories reports) m ((eq_iff e.dir_key k).1 same))),
      )

  -- A directory is missing in the merged view only if no node reported it.
  pub aggregate_directory_stats_complete :
      (k : String) (reports : List (Node F))
      → lookup k (aggregate_directory_stats reports) ≡ none
      → All (λ e. (e.dir_key == k) ≡ false) (all_directories reports)
  aggregate_directory_stats_complete k reports h =
      retain-nil (of_key k) (all_directories reports)
        (first_best-none supersedes _ (sym (lookup-aggregate k reports) ∙ h))
