-- ===== src/Coordinator/Tests.antt =====
-- A cycle over a list of tasks.
use immich_go_server.Prelude.{ℤ, pos, String, List, [], ◌∷◌, ◌++◌, ok}
use immich_go_server.Float64.{hundredths}
use immich_go_server.Model.{Task}
use immich_go_server.Coordinator.{Repository}
use immich_go_server.Coordinator.Trace.{moves, copies}
use immich_go_server.Balancer.Tests.{dir, disks, asset, config}

-- It keeps the tasks in the order in which they are submitted, and knows one asset without a replica.
abbrev recorder : Repository ℤ String (List Task)
recorder = record {
  list_directories = λ s. (ok (dir ∷ []), s);
  list_disks = λ s. (ok disks, s);
  list_assets = λ s. (ok (asset ∷ []), s);
  list_replicas = λ _ s. (ok [], s);
  replica_count = λ _ s. (pos 0, s);
  submit_task = λ t s. (ok tt, s ++ t ∷ []);
}

abbrev wanted : List Task
wanted =
    moves hundredths config disks (dir ∷ [])
    ++ copies hundredths config disks (λ _. []) (λ _. pos 0) (asset ∷ [])
