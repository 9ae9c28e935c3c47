-- ===== src/Executor/Verdict.antt =====
-- What the result of `Run` says of the copies.
use mathlib.Core.List.{Nodup}
use immich_go_server.Prelude.{
  String, ◌≡◌, ◌≢◌, refl, sym, subst, inl, inr, List, some, arith, Assoc, lookup, Bool-cases, All,
  All-of_mem, All-map, Triple, Post, Result, ok, err,
}
use immich_go_server.Model.{Asset}
use immich_go_server.Migration.{
  Manifest, compute_resume, resume_one, all_copied, state_verified, state_rollback,
}
use immich_go_server.Migration.Copied.{ids}
use immich_go_server.Executor.{Job, Error, out_of_fuel, Bytes, copy_all, settle, run, set_state}
use immich_go_server.Executor.Invariant.{IsSafe}
use immich_go_server.Executor.Triples.{save_manifest-IsSafe, save_manifest_frame}
use immich_go_server.Executor.Run.{
  Completed, Broken, Before, copy_all-Triple, resume_one_id, resume_one-Fits, find_asset_mem,
}

-- The target of the file is there and has all bytes of its source.
abbrev pub IsWhole : Assoc Bytes → Job → Asset → Type 0
IsWhole src s f =
    (bytes : Bytes) × (lookup f.asset_id s.target ≡ some bytes)
    × (lookup f.asset_id src ≡ some bytes)

set_state-IsSafe :
    (src : Assoc Bytes) (state : String) (s : Job) → IsSafe src s → IsSafe src (set_state state s)
set_state-IsSafe src state s v = record {
  same = v.same;
  prefix = v.prefix;
  done = v.done;
  kept = v.kept;
}

module _ (src : Assoc Bytes) (source : List Asset) where
  loop-Triple :
      (m : Manifest)
      → Nodup (ids source)
      → Triple
          (Before src source m.completed)
          (copy_all source (compute_resume m source))
          (λ _. Completed src source source m.completed)
          (Broken src source)
  unfolding compute_resume
  loop-Triple m n =
      copy_all-Triple src source (resume_one m) (resume_one_id src source m) source m.completed n (
        All-of_mem _ source
          (λ f mem. (find_asset_mem source _ f n mem, resume_one-Fits src source m f)))

  abbrev Verdict : Result Error String × Job → Type 0
  Verdict r =
      IsSafe src r.1
      × (r.0 ≢ err out_of_fuel)
      × ((state : String) → r.0 ≡ ok state → All (IsWhole src r.1) source)

  IsWhole-of :
      (c : List String) (s : Job) → Completed src source source c s → All (IsWhole src s) source
  IsWhole-of c s (v, all, _) = All-map _ source (λ f h. v.done f.asset_id h) all

  settle-Verdict :
      (c : List String) (r : Result Error Unit × Job)
      → Post (λ _. Completed src source source c) (Broken src source) r
      → Verdict (settle source r)
  unfolding settle
  settle-Verdict c (err e, s) (v, real) = (
    save_manifest-IsSafe src _ (set_state-IsSafe src state_rollback s v),
    (λ h. ground (arith, real)),
    λ state h. cc,
  )
  settle-Verdict c (ok _, s) h = elim (Bool-cases (all_copied s.m source)) [
    | inl t ↦ rw t (
      save_manifest-IsSafe src _ (set_state-IsSafe src state_verified s h.0),
      (λ e. cc),
      λ state e.
          subst
            (λ target.
              All
                (λ f.
                  (bytes : Bytes) × (lookup f.asset_id target ≡ some bytes)
                  × (lookup f.asset_id src ≡ some bytes))
                source)
            (sym (save_manifest_frame (set_state state_verified s)).1) (IsWhole-of c s h),
    )
    | inr f ↦ rw f (h.0, (λ e. cc), λ state e. IsWhole-of c s h)
  ]

-- Suppose that every target is a beginning of its source, every completed file a whole copy, and no
-- file completed in the manifest file that is not in memory. Then, whatever calls of the blob store
-- fail, a run on assets with distinct ids leaves the source as it is and the rest of this true, it does
-- not run out of fuel, and if it returns no error then every asset of the source is copied whole.
pub run-IsSafe :
    (src : Assoc Bytes) (source : List Asset) (s : Job)
    → Nodup (ids source)
    → IsSafe src s
    → IsSafe src (run source s).1
      × ((run source s).0 ≢ err out_of_fuel)
      × ((state : String) → (run source s).0 ≡ ok state → All (IsWhole src (run source s).1) source)
unfolding run
run-IsSafe src source s distinct safe =
    settle-Verdict src source s.m.completed _
      ((loop-Triple src source s.m distinct).at s (safe, refl))
