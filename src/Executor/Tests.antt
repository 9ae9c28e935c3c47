-- ===== src/Executor/Tests.antt =====
-- The copy of two small files, with a write that stops half way, and a manifest left behind.
use mathlib.Core.Bool.{false≢true}
use immich_go_server.Prelude.{
  pos, String, ◌≡◌, ◌≢◌, refl, true, false, [], ◌∷◌, some, Assoc, lookup, contains, All, ◌↔◌, ◌≤ℤ◌,
  ok, err, eq_iff,
}
use immich_go_server.Migration.{Manifest, state_in_progress, state_verified, state_done}
use immich_go_server.Migration.Copied.{ids}
use immich_go_server.Migration.Tests.{assets, distinct}
use immich_go_server.Executor.{Job, Bytes, success, failure, out_of_fuel, run}
use immich_go_server.Executor.Invariant.{IsSafe}
use immich_go_server.Executor.Verdict.{IsWhole, run-IsSafe}
use immich_go_server.Executor.Stale.{run_stale}
use immich_go_server.Executor.Ending.{finish, finish_iff}
use mathlib.Core.List.{Memᴰ}
use immich_go_server.Config.{default}
use immich_go_server.Float64.{hundredths}
use immich_go_server.Model.{Asset}

abbrev files : Assoc Bytes
files = ("a", 1 ∷ 2 ∷ 3 ∷ []) ∷ ("b", 4 ∷ 5 ∷ 6 ∷ []) ∷ []

abbrev fresh : Manifest
fresh = record {
  task_id = "t";
  src_disk = "d1";
  dst_disk = "d2";
  dir_key = "";
  total_files = 2;
  total_bytes = pos 0;
  completed = [];
  partial = [];
  state = state_in_progress;
}

abbrev job : Job
job = record {
  remote = false;
  source = files;
  target = [];
  original = [];
  stored = some fresh;
  m = fresh;
  outcomes = success ∷ success ∷ success ∷ success ∷ failure 2 ∷ [];
}

job-IsSafe : IsSafe files job
unfolding lookup contains
job-IsSafe = record { same = refl; prefix = λ id t h. cc; done = λ id h. cc; kept = λ id h. cc }

run-IsSafe_example :
    IsSafe files (run assets job).1
    × ((run assets job).0 ≢ err out_of_fuel)
    × ((state : String)
        → (run assets job).0 ≡ ok state
        → All (IsWhole files (run assets job).1) assets)
run-IsSafe_example = run-IsSafe files assets job distinct job-IsSafe

abbrev stale : Job
stale = record job { m = record fresh { completed = "c" ∷ [] }; outcomes = [] }

not_of_source : contains "c" (ids assets) ≡ false
unfolding contains
not_of_source = refl

completed_before : contains "c" stale.m.completed ≡ true
unfolding contains
completed_before = refl

in_progress : stale.m.state ≢ state_verified
in_progress e = absurd (false≢true ((eq_iff state_in_progress state_verified).1 e))

run_stale_example : (run assets stale).0 ≢ ok state_verified
run_stale_example = run_stale "c" assets stale distinct not_of_source completed_before in_progress

finish_iff_example :
    (((finish assets (λ id. pos 2) (default hundredths) job).0 ≡ ok state_done)
      ↔ ((f : Asset) → Memᴰ f assets → pos 2 ≤ℤ pos 2))
    × (((finish assets (λ id. pos 2) (default hundredths) job).0 ≢ ok state_done)
        → (finish assets (λ id. pos 2) (default hundredths) job).1 ≡ job)
finish_iff_example = finish_iff assets (λ id. pos 2) (default hundredths) job
