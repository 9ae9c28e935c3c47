-- ===== src/Executor/Ending.antt =====
-- internal/migrationexec/executor.go: the two ways to end a migration, `Finish` and `Rollback`.
use mathlib.Core.List.{Memᴰ}
use mathlib.Core.List.Memᴰ
use mathlib.Core.Bool.{false≢true}
use immich_go_server.Prelude.{
  ℤ, String, ◌≡◌, ◌≢◌, refl, sym, ap, subst, ◌∙◌, ◌↔◌, inl, inr, List, [], ◌∷◌, none, some,
  if◌then◌else◌, ◌≤ℤ◌, ◌==◌, eq_iff, eq_refl, Assoc, lookup, insert, erase, lookup-insert, Result,
  ok, err, Bool-cases,
}
use immich_go_server.Config.{Config}
use immich_go_server.Model.{Asset}
use immich_go_server.Migration.{can_delete_source, count_of, keys, state_done, state_rollback}
use immich_go_server.Migration.Copied.{can_delete_source_iff}
use immich_go_server.Executor.{
  Job, Error, io_failed, replicas_below_minimum, IoAction, next_failure, spent, set_state,
}

pub remove_target : String → IoAction Unit
remove_target id s = elim (next_failure s.outcomes) [
  | some _ ↦ (err io_failed, spent s)
  | none ↦ (ok tt, record (spent s) { target = erase id s.target })
]

pub remove_manifest : IoAction Unit
remove_manifest s = elim (next_failure s.outcomes) [
  | some _ ↦ (err io_failed, spent s)
  | none ↦ (ok tt, record (spent s) { stored = none })
]

-- `for … { _ = RemoveTarget(…) }`
pub remove_targets : List String → Job → Job
remove_targets [] s = s
remove_targets (id ∷ ids) s = remove_targets ids (remove_target id s).1

abbrev pub counts_from : (String → ℤ) → List Asset → Assoc ℤ → Assoc ℤ
counts_from effective [] counts = counts
counts_from effective (a ∷ rest) counts =
    counts_from effective rest (insert a.asset_id (effective a.asset_id) counts)

abbrev finished : Job → Job
finished s = set_state state_done (remove_manifest (remove_targets (keys s.m.partial) s)).1

-- `effective` is the caller's count of the effective replicas.
pub finish : {F : Type 0} → List Asset → (String → ℤ) → Config F → IoAction String
unfolding remove_targets
finish source effective cfg s =
    if can_delete_source source (counts_from effective source []) cfg
    then (ok state_done, finished s)
    else (err replicas_below_minimum, s)

abbrev end_rollback : Result Error Unit × Job → Result Error Unit × Job
end_rollback (err e, s) = (err e, s)
end_rollback (ok _, s) = (ok tt, set_state state_rollback s)

pub rollback : IoAction Unit
unfolding remove_targets
rollback s =
    end_rollback
      (remove_manifest (remove_targets (keys s.m.partial) (remove_targets s.m.completed s)))

lookup-counts_other :
    (effective : String → ℤ) (source : List Asset) (counts : Assoc ℤ) (k : String)
    → lookup k counts ≡ some (effective k)
    → lookup k (counts_from effective source counts) ≡ some (effective k)
lookup-counts_other effective [] counts k h = h
lookup-counts_other effective (a ∷ rest) counts k h =
    lookup-counts_other effective rest (insert a.asset_id (effective a.asset_id) counts) k (
      lookup-insert a.asset_id k (effective a.asset_id) counts
      ∙ (elim (Bool-cases (a.asset_id == k)) [
        | inl e ↦ rw e (ap (λ j. some (effective j)) ((eq_iff a.asset_id k).0 e))
        | inr n ↦ rw n h
      ]))

lookup-counts :
    (effective : String → ℤ) (source : List Asset) (counts : Assoc ℤ) (f : Asset)
    → Memᴰ f source
    → lookup f.asset_id (counts_from effective source counts) ≡ some (effective f.asset_id)
lookup-counts effective [] counts f m = absurd (Memᴰ.not-nil m)
lookup-counts effective (a ∷ rest) counts f (Memᴰ.head e) =
    lookup-counts_other effective rest (insert a.asset_id (effective a.asset_id) counts) f.asset_id
      (lookup-insert a.asset_id f.asset_id (effective a.asset_id) counts
        ∙ rw (ap (λ x. x.asset_id) e, eq_refl) refl)
lookup-counts effective (a ∷ rest) counts f (Memᴰ.tail m) =
    lookup-counts effective rest (insert a.asset_id (effective a.asset_id) counts) f m

-- A migration is finished exactly when every asset of the source has at least `MinReplicas` effective
-- replicas; otherwise nothing at all is changed.
pub finish_iff :
    {F : Type 0} (source : List Asset) (effective : String → ℤ) (cfg : Config F) (s : Job)
    → (((finish source effective cfg s).0 ≡ ok state_done)
        ↔ ((f : Asset) → Memᴰ f source → cfg.min_replicas ≤ℤ effective f.asset_id))
      × (((finish source effective cfg s).0 ≢ ok state_done)
          → (finish source effective cfg s).1 ≡ s)
unfolding finish
finish_iff source effective cfg s =
    let counts = counts_from effective source [] in
    let may = can_delete_source_iff source counts cfg in
    elim (Bool-cases (can_delete_source source counts cfg)) [
      | inl t ↦ rw t (
        (
          (λ _ f m.
              subst (λ o. cfg.min_replicas ≤ℤ count_of o) (lookup-counts effective source [] f m)
                (may.0 t f m)),
          (λ _. refl),
        ),
        λ never. absurd (never refl),
      )
      | inr n ↦ rw n (
        (
          (λ e. cc),
          (λ all. absurd (
              false≢true (
                sym n
                ∙ may.1 (λ f m.
                  subst (λ o. cfg.min_replicas ≤ℤ count_of o)
                    (sym (lookup-counts effective source [] f m)) (all f m))))),
        ),
        λ _. refl,
      )
    ]
