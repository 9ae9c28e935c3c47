-- ===== src/Server.antt =====
-- internal/server/server.go: what a node makes of the peers that it has heard of, and of the view that it
-- pulls from them; and what cmd/server/main.go does with it at every tick, after the disks have been
-- claimed and scanned. A tick takes one time, `now`, for all its calls of the clock.
pub mod Pull
pub mod Tick
pub mod Tests
use immich_go_server.Prelude.{
  ℕ, ℤ, String, Bool, ◌&&◌, not, List, [], ◌∷◌, Option, none, some, if◌then◌else◌, ◌==◌, concat,
  Assoc, lookup, Result, ok, err, Action, pure, raise, ◌>>=◌, ◌>>◌,
}
use immich_go_server.Float64.{Float64}
use immich_go_server.Config.{Config, default}
use immich_go_server.Model.{Disk, Directory}
use immich_go_server.Messages.{StatePayload}
use immich_go_server.Discovery.{Peer, Registry}
use immich_go_server.Store.{Store, rows_of}
use immich_go_server.Store.Disks.{get_disk_location}
use immich_go_server.Store.Directories.{save_directory}
use immich_go_server.Store.Views.{get_state}
use immich_go_server.Coordinator.{run_balancing_cycle}
use immich_go_server.World.{World, WorldAction, Failure, local}
use immich_go_server.Worker.{DiskLocator}
use immich_go_server.Worker.Tasks.{run_once}
use immich_go_server.Federation.{Client, PeerUrl, GlobalView, run, global_repository}

abbrev pub url_of : Peer → String
url_of p = concat "http://" p.addr

-- `peerURLFunc`
abbrev pub find_url : String → List Peer → Option String
find_url node_id [] = none
find_url node_id (p ∷ ps) =
    let further = find_url node_id ps in if p.node_id == node_id then some (url_of p) else further

abbrev pub peer_url : Registry → String → Option String
peer_url reg node_id = find_url node_id (rows_of reg)

-- `NodeLocator`
module _ {F : Type 0} (self_id : String) (disks : Assoc (Disk F)) (reg : Registry) where
  abbrev located : String → Option (Disk F) → Store F → Option String × Store F
  located serial none s = get_disk_location serial s
  located serial (some d) s =
      if not (d.mounted_node_id == "")
      then (some d.mounted_node_id, s)
      else get_disk_location serial s

  abbrev pub node_locator : DiskLocator F
  node_locator = record {
    disk_node = λ serial s. located serial (lookup serial disks) s;
    peer_url = λ node_id. if node_id == self_id then none else peer_url reg node_id;
  }

abbrev pub other_peers : String → List Peer → List PeerUrl
other_peers self_id [] = []
other_peers self_id (p ∷ ps) =
    let rest = other_peers self_id ps in
    if p.node_id == self_id then rest else record { node_id = p.node_id; url = url_of p } ∷ rest

module _ (fl : Float64) (sign_payload : String → String → ℤ → StatePayload fl.F → String)
    (peer_secret : String → String) (peer_now : String → ℤ) (client : Client) (reg : Registry)
    (task_id : String) where
  abbrev now : ℤ
  now = client.now

  abbrev node_id : String
  node_id = client.self_node_id

  -- ---- `Federate` ----

  abbrev pub own_state : WorldAction fl.F (StatePayload fl.F)
  own_state w =
      let (p, s) = get_state w.host.store in (ok p, record w { host = record w.host { store = s } })

  pub save_directories : Assoc (Directory fl.F) → WorldAction fl.F Unit
  save_directories [] = pure tt
  save_directories ((_, d) ∷ rest) = local (save_directory now d) >> save_directories rest

  unfoldable pub federate : WorldAction fl.F (GlobalView fl.F)
  federate = do
    state ← own_state
    gv ←
        run fl sign_payload peer_secret peer_now client node_id state
          (other_peers node_id (rows_of reg))
    save_directories gv.directories
    pure gv

  -- ---- one tick ----

  abbrev pub balance : GlobalView fl.F → World fl.F → World fl.F
  balance gv w =
      if gv.coordinator == node_id
      then (run_balancing_cycle fl
          (global_repository fl sign_payload peer_secret peer_now client now (peer_url reg) node_id
            gv.disks)
          (default fl) w).1
      else w

  abbrev pub no_view : GlobalView fl.F
  no_view = record {
    self_node_id = node_id;
    nodes = [];
    disks = [];
    directories = [];
    coordinator = "";
  }

  -- A worker is made without a configuration of its own.
  abbrev pub no_config : Config fl.F
  no_config = record {
    min_replicas = ℤ.pos 0;
    hot_free_target = fl.of_int (ℤ.pos 0);
    warm_free_target = fl.of_int (ℤ.pos 0);
    cold_free_target = fl.of_int (ℤ.pos 0);
    hot_temp_thr = fl.of_int (ℤ.pos 0);
    cold_temp_thr = fl.of_int (ℤ.pos 0);
    safety_margin = fl.of_int (ℤ.pos 0);
    disk_min_free_ratio = fl.of_int (ℤ.pos 0);
    disk_min_free_bytes = ℤ.pos 0;
    migration_bytes_per_cycle = ℤ.pos 0;
    offline_suspect_days = ℤ.pos 0;
    max_clock_skew = ℤ.pos 0;
    migration_max_retry = ℤ.pos 0;
    pull_interval = ℤ.pos 0;
    temp_weights = (fl.of_int (ℤ.pos 0), fl.of_int (ℤ.pos 0), fl.of_int (ℤ.pos 0));
  }

  abbrev pub work : Assoc (Disk fl.F) → World fl.F → World fl.F
  work disks w = (run_once fl (node_locator node_id disks reg) no_config node_id task_id now w).1

  abbrev pub schedule : Result Failure (GlobalView fl.F) × World fl.F → World fl.F
  schedule (err _, w) = work no_view.disks w
  schedule (ok gv, w) = work gv.disks (balance gv w)

  unfoldable pub tick : World fl.F → World fl.F
  tick w = schedule (federate w)
