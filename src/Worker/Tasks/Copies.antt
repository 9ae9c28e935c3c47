-- ===== src/Worker/Tasks/Copies.antt =====
-- Copying leaves the node's table of tasks as it is, whatever the disks do.
use immich_go_server.Prelude.{
  ℤ, String, ◌≡◌, Bool, true, false, not, List, [], ◌∷◌, Option, some, none, if◌then◌else◌, ◌==◌,
  Triple-bind, Triple-then, Assoc, pure, raise, require, inl, inr, ◌>>=◌, ◌>>◌, Option-cases,
}
use immich_go_server.Float64.{Float64}
use immich_go_server.Config.{Config}
use immich_go_server.Model.{Asset}
use immich_go_server.Store.{Store, TaskRow}
use immich_go_server.Host.{dir_path}
use immich_go_server.Executor.{Bytes, next_failure}
use immich_go_server.World.{World, WorldAction, Failure, no_blob_root}
use immich_go_server.Worker.{
  DiskLocator, node_of, root_of, make_dir, run_job, tree, copy_here, copy_remote, copy_local,
  copy_between, copy_assets, is_remote,
}
use immich_go_server.Worker.Tasks.Frame.{IsStill, Keeps, Keeps-of}
use immich_go_server.Worker.Tasks.Releases.{disk_root-IsStill}

-- Asking where a disk is leaves the tasks, and a working database working.
abbrev pub IsQuiet : {F : Type 0} → DiskLocator F → Type 0
IsQuiet {F} loc =
    (disk : String) (s : Store F) (T : Assoc TaskRow)
    → IsStill T s
    → IsStill T (loc.disk_node disk s).1

module _ {F : Type 0} (T : Assoc TaskRow) where
  pub raise-Keeps : {A : Type 0} (e : Failure) → Keeps {F = F} T {A = A} (raise e)
  raise-Keeps e = record { at = λ w h. h }

  pub pure-Keeps : {A : Type 0} (a : A) → Keeps {F = F} T (pure a)
  pure-Keeps a = record { at = λ w h. h }

  pub if-Keeps :
      {A : Type 0} (b : Bool) (m n : WorldAction F A)
      → Keeps T m
      → Keeps T n
      → Keeps T (if b then m else n)
  if-Keeps true m n km kn = km
  if-Keeps false m n km kn = kn

  require-Keeps : (b : Bool) (e : Failure) → Keeps {F = F} T (require b e)
  require-Keeps true e = record { at = λ w h. h }
  require-Keeps false e = record { at = λ w h. h }

  pub Keeps-bind :
      {A B : Type 0} (m : WorldAction F A) (f : A → WorldAction F B)
      → Keeps T m
      → ((a : A) → Keeps T (f a))
      → Keeps T (m >>= f)
  Keeps-bind m f km kf = Triple-bind m f km kf

  pub Keeps-then :
      {A B : Type 0} (m : WorldAction F A) (n : WorldAction F B)
      → Keeps T m
      → Keeps T n
      → Keeps T (m >> n)
  Keeps-then m n km kn = Triple-then m n km (λ _. kn)

  -- What leaves the node as it is keeps its tasks.
  pub Keeps-of_host :
      {A : Type 0} (act : WorldAction F A) → ((w : World F) → (act w).1.host ≡ w.host) → Keeps T act
  Keeps-of_host act same = Keeps-of T act (λ w h. rw (same w) h)

module _ (fl : Float64) (loc : DiskLocator fl.F) (cfg : Config fl.F) (node_id task_id : String)
    (now : ℤ) (T : Assoc TaskRow) (quiet : IsQuiet loc) where
  pub node_of-Keeps : (disk : String) → Keeps T (node_of fl loc cfg node_id task_id now disk)
  node_of-Keeps disk = Keeps-of T _ (λ w h. quiet disk w.host.store T h)

  root_of-Keeps : (disk : String) → Keeps T (root_of fl loc cfg node_id task_id now disk)
  root_of-Keeps disk = Keeps-of T _ (λ w h. disk_root-IsStill T disk w.host.store h)

  make_dir-Keeps : Keeps T (make_dir fl loc cfg node_id task_id now)
  make_dir-Keeps = Keeps-of T _ λ w h. elim (Option-cases (next_failure w.outcomes)) [
    | inl n ↦ rw (n, make_dir) h
    | inr (k, e) ↦ rw (e, make_dir) h
  ]

  run_job-Keeps :
      (remote : Bool) (source : Assoc Bytes) (src_disk dst_disk root dir_key : String)
      (assets : List Asset)
      → Keeps T (
          run_job fl loc cfg node_id task_id now remote source src_disk dst_disk root dir_key
            assets)
  unfolding run_job
  run_job-Keeps remote source src_disk dst_disk root dir_key assets = Keeps-of T _ (λ w h. h)

  copy_remote-Keeps :
      (src_disk dst_disk root dir_key node : String) (assets : List Asset) (url : Option String)
      → Keeps T (
          copy_remote fl loc cfg node_id task_id now src_disk dst_disk root dir_key node assets url)
  copy_remote-Keeps src_disk dst_disk root dir_key node assets none = raise-Keeps T _
  copy_remote-Keeps src_disk dst_disk root dir_key node assets (some url) = record {
    at = λ w h. (run_job-Keeps true _ src_disk dst_disk root dir_key assets).at w h;
  }

  copy_local-Keeps :
      (src_disk dst_disk root dir_key : String) (assets : List Asset)
      → Keeps T (copy_local fl loc cfg node_id task_id now src_disk dst_disk root dir_key assets)
  copy_local-Keeps src_disk dst_disk root dir_key assets =
      Keeps-bind T _ _ (root_of-Keeps src_disk) λ src_root.
        if-Keeps T (dir_path src_root dir_key == dir_path root dir_key) (pure tt)
          (copy_here fl loc cfg node_id task_id now src_disk dst_disk root dir_key assets src_root)
          (pure-Keeps T tt)
          (record {
            at = λ w h.
                (run_job-Keeps false (tree src_root dir_key w.host.files) src_disk dst_disk root
                    dir_key assets).at
                  w h;
          })

  copy_between-Keeps :
      (src_disk dst_disk root dir_key : String) (assets : List Asset) (node : String)
      → Keeps T
          (copy_between fl loc cfg node_id task_id now src_disk dst_disk root dir_key assets node)
  copy_between-Keeps src_disk dst_disk root dir_key assets node =
      if-Keeps T (is_remote fl loc cfg node_id task_id now node) _ _
        (copy_remote-Keeps src_disk dst_disk root dir_key node assets (loc.peer_url node))
        (copy_local-Keeps src_disk dst_disk root dir_key assets)

  pub copy_assets-Keeps :
      (src_disk dst_disk : String) (assets : List Asset)
      → Keeps T (copy_assets fl loc cfg node_id task_id now src_disk dst_disk assets)
  unfolding copy_assets
  copy_assets-Keeps src_disk dst_disk [] = pure-Keeps T tt
  copy_assets-Keeps src_disk dst_disk (a ∷ rest) = Keeps-bind T _ _ (root_of-Keeps dst_disk) λ root.
      Keeps-then T _ _ (require-Keeps T (not (root == "")) (no_blob_root dst_disk)) (
        Keeps-then T _ _ make_dir-Keeps (
          Keeps-bind T _ _ (node_of-Keeps src_disk)
            (copy_between-Keeps src_disk dst_disk root a.dir_key (a ∷ rest))))
