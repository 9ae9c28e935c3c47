-- ===== src/Worker/Delivery.antt =====
-- What a copy of a directory leaves behind.
use mathlib.Core.List.{Nodup}
use immich_go_server.Prelude.{
  ℕ, zero, suc, ℤ, String, ◌≡◌, ◌≢◌, refl, sym, ap, subst, ◌∙◌, inl, inr, Bool, true, false, List,
  [], ◌++◌, Option, some, Assoc, lookup, contains, All, All-map, Option-cases, Result, ok, err,
  Triple, Post, Triple-then, ◌>>◌,
}
use immich_go_server.Float64.{Float64}
use immich_go_server.Config.{Config}
use immich_go_server.Model.{Asset}
use immich_go_server.Migration.{Manifest, state_in_progress}
use immich_go_server.Migration.Copied.{ids}
use immich_go_server.Executor.{
  Job, Error, out_of_fuel, Bytes, next_failure, after_failure, spent, write_manifest, new_manifest,
  start, run,
}
use immich_go_server.Executor.Invariant.{IsSafe, completed_in}
use immich_go_server.Executor.Triples.{save_manifest-IsSafe, save_manifest-lift}
use immich_go_server.Executor.Verdict.{IsWhole, run-IsSafe}
use immich_go_server.Host.{find_file, dir_path}
use immich_go_server.World.{World}
use immich_go_server.Worker.{DiskLocator, tree, job_for, put_tree, after_job, verdict, run_job}
use immich_go_server.Worker.Trees.{find_file-tree, tree-put_tree, lookup-set_manifest}

module _ (src : Assoc Bytes) where
  -- The files of a target are beginnings of their sources, and those that the manifest file calls completed
  -- are whole.
  abbrev pub CanResume : Assoc Bytes → Option Manifest → Type 0
  CanResume target stored =
      ((id : String) (t : Bytes)
        → lookup id target ≡ some t
        → (rest : Bytes) × (lookup id src ≡ some (t ++ rest)))
      × ((id : String)
          → contains id (completed_in stored) ≡ true
          → (bytes : Bytes) × (lookup id target ≡ some bytes) × (lookup id src ≡ some bytes))

  abbrev Resumable : Job → Type 0
  Resumable s = (s.source ≡ src) × CanResume s.target s.stored

  after_failure-CanResume :
      (k : ℕ) (target : Assoc Bytes) (stored : Option Manifest)
      → CanResume target stored
      → CanResume target (after_failure k stored)
  unfolding contains
  after_failure-CanResume zero target stored h = h
  after_failure-CanResume (suc k) target stored h = (h.0, λ id e. cc)

  of_safe : (s : Job) → IsSafe src s → Resumable s
  of_safe s v = (v.same, (v.prefix, λ id h. v.done id (v.kept id h)))

  write_new :
      (m : Manifest) (s : Job)
      → m.completed ≡ []
      → Resumable s
      → Post {A = Unit {0}} (λ _. IsSafe src) (λ _. Resumable) (write_manifest (record s { m = m }))
  unfolding write_manifest contains
  write_new m s empty (same, (starts, done)) = elim (Option-cases (next_failure s.outcomes)) [
    | inl n ↦
        rw (n, write_manifest)
          (record {
            same = same;
            prefix = starts;
            done = λ id h. let none_yet : false ≡ true = rw empty at h in cc;
            kept = λ id h. h;
          })
    | inr (k, e) ↦
        rw (e, write_manifest) (same, after_failure-CanResume k s.target s.stored (starts, done))
  ]

  take_up :
      (old : Manifest) (s : Job)
      → s.stored ≡ some old
      → Resumable s
      → IsSafe src (record (spent s) { m = record old { state = state_in_progress } })
  take_up old s e (same, (starts, done)) = record {
    same = same;
    prefix = starts;
    done = λ id h. done id (subst (λ o. contains id (completed_in o) ≡ true) (sym e) h);
    kept = λ id h. subst (λ o. contains id (completed_in o) ≡ true) e h;
  }

  start-Triple :
      (task_id src_disk dst_disk : String) (source : List Asset)
      → Triple Resumable (start task_id src_disk dst_disk source) (λ _. IsSafe src) (λ _. Resumable)
  unfolding start new_manifest write_manifest
  start-Triple task_id src_disk dst_disk source = record {
    at = λ s h. elim (Option-cases (next_failure s.outcomes)) [
      | inr (k, e) ↦
          rw (e, start) (write_new (new_manifest task_id src_disk dst_disk source) (spent s) refl h)
      | inl n ↦ elim (Option-cases s.stored) [
        | inl e ↦
            rw (n, e, start)
              (write_new (new_manifest task_id src_disk dst_disk source) (spent s) refl h)
        | inr (old, e) ↦
            rw (n, e, start)
              ((save_manifest-lift (IsSafe src) (λ _. IsSafe src) (λ _. Resumable)
                  (save_manifest-IsSafe src)).at
                _ (take_up old s e h))
      ]
    ];
  }

  run-Post :
      (assets : List Asset) (r : Result Error String × Job)
      → IsSafe src r.1
        × (r.0 ≢ err out_of_fuel)
        × ((state : String) → r.0 ≡ ok state → All (IsWhole src r.1) assets)
      → Post (λ _ s. Resumable s × All (IsWhole src s) assets) (λ _. Resumable) r
  run-Post assets (ok state, s) h = (of_safe s h.0, h.2 state refl)
  run-Post assets (err e, s) h = of_safe s h.0

  job-Triple :
      (task_id src_disk dst_disk : String) (assets : List Asset)
      → Nodup (ids assets)
      → Triple Resumable
          (start task_id src_disk dst_disk assets >> run assets)
          (λ _ s. Resumable s × All (IsWhole src s) assets)
          (λ _. Resumable)
  job-Triple task_id src_disk dst_disk assets distinct =
      Triple-then _ _ (start-Triple task_id src_disk dst_disk assets) (λ _. record {
        at = λ s v. run-Post assets (run assets s) (run-IsSafe src assets s distinct v);
      })

-- The files in the directory `dir_key` below `root` and the manifest beside them are those of a copy of `src`
-- that is under way.
abbrev pub IsUnderWay : {F : Type 0} → Assoc Bytes → String → String → World F → Type 0
IsUnderWay src root dir_key w =
    CanResume src (tree root dir_key w.host.files) (lookup (dir_path root dir_key) w.host.manifests)

abbrev pub IsDelivered : {F : Type 0} → Assoc Bytes → String → String → World F → Asset → Type 0
IsDelivered src root dir_key w a =
    (bytes : Bytes) × (find_file root dir_key a.asset_id w.host.files ≡ some bytes)
    × (lookup a.asset_id src ≡ some bytes)

module _ (fl : Float64) (loc : DiskLocator fl.F) (cfg : Config fl.F) (node_id task_id : String)
    (now : ℤ) where
  abbrev Lands :
      Assoc Bytes → String → String → List Asset → World fl.F → Result Error String × Job → Type 0
  Lands src root dir_key assets w r =
      let after = after_job fl loc cfg node_id task_id now root dir_key w r.1 in
      IsUnderWay src root dir_key after
      × (verdict fl loc cfg node_id task_id now r.0 ≡ ok tt
          → All (IsDelivered src root dir_key after) assets)

  after_job-IsUnderWay :
      (src : Assoc Bytes) (root dir_key : String) (w : World fl.F) (j : Job)
      → CanResume src j.target j.stored
      → IsUnderWay src root dir_key (after_job fl loc cfg node_id task_id now root dir_key w j)
  after_job-IsUnderWay src root dir_key w j h =
      rw
        (
          tree-put_tree root dir_key j.target w.host.files,
          lookup-set_manifest (dir_path root dir_key) j.stored w.host.manifests,
        )
        h

  after_job-IsDelivered :
      (src : Assoc Bytes) (root dir_key : String) (w : World fl.F) (j : Job) (a : Asset)
      → IsWhole src j a
      → IsDelivered src root dir_key (after_job fl loc cfg node_id task_id now root dir_key w j) a
  after_job-IsDelivered src root dir_key w j a (bytes, there, whole) = (
    bytes,
    (find_file-tree root dir_key a.asset_id (put_tree root dir_key j.target w.host.files)
        ∙ ap (lookup a.asset_id) (tree-put_tree root dir_key j.target w.host.files)
        ∙ there),
    whole,
  )

  job-Lands :
      (src : Assoc Bytes) (root dir_key : String) (assets : List Asset) (w : World fl.F)
      (r : Result Error String × Job)
      → Post (λ _ s. Resumable src s × All (IsWhole src s) assets) (λ _. Resumable src) r
      → Lands src root dir_key assets w r
  job-Lands src root dir_key assets w (ok state, j) h = (
    after_job-IsUnderWay src root dir_key w j h.0.1,
    λ e. All-map _ assets (after_job-IsDelivered src root dir_key w j) h.1,
  )
  job-Lands src root dir_key assets w (err e, j) h =
      (after_job-IsUnderWay src root dir_key w j h.1, λ e. cc)

  -- Whatever disk operations fail, copying assets with distinct ids into a directory whose files are beginnings
  -- of their sources, and whose manifest calls only whole copies completed, leaves such a directory behind. If
  -- it returns no error, then every asset has a file there with all bytes of its source.
  pub run_job-IsDelivered :
      (remote : Bool) (src : Assoc Bytes) (src_disk dst_disk root dir_key : String)
      (assets : List Asset) (w : World fl.F)
      → Nodup (ids assets)
      → IsUnderWay src root dir_key w
      → let r =
          run_job fl loc cfg node_id task_id now remote src src_disk dst_disk root dir_key assets
            w in
        IsUnderWay src root dir_key r.1
        × (r.0 ≡ ok tt → All (IsDelivered src root dir_key r.1) assets)
  unfolding run_job
  run_job-IsDelivered remote src src_disk dst_disk root dir_key assets w distinct h =
      job-Lands src root dir_key assets w _ (
        (job-Triple src task_id src_disk dst_disk assets distinct).at
          (job_for fl loc cfg node_id task_id now remote src root dir_key w) (refl, h))
