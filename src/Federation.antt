-- ===== src/Federation.antt =====
-- internal/cluster/federation.go: the view of the whole cluster that a node pulls from its peers, and the
-- repository that the coordinator works on with it. `peer_secret` and `peer_now` are the secret and the
-- clock of the peer at a base URL, `sign_payload` is as in Crypto.
pub mod Routing
pub mod States
pub mod Tests
use immich_go_server.Prelude.{
  sort_by, ℕ, ℤ, pos, String, Bool, ◌||◌, List, [], ◌∷◌, map, Option, none, some, if◌then◌else◌,
  eqb, ◌==◌, less, Assoc, lookup, Result, ok, err, Action, pure, raise, ◌>>=◌,
}
use immich_go_server.Float64.{Float64}
use immich_go_server.Model.{Disk, Directory, Node, Task}
use immich_go_server.Messages.{StatePayload}
use immich_go_server.Cluster.{
  aggregate_disk_stats, aggregate_directory_stats, elect_coordinator, node_from_state,
}
use immich_go_server.Crypto.{verify_state_payload}
use immich_go_server.Store.{Store, rows_of}
use immich_go_server.Store.Assets.{list_assets}
use immich_go_server.Store.Replicas.{list_replicas, replica_count}
use immich_go_server.Store.Directories.{list_directories}
use immich_go_server.Store.Tasks.{submit_task}
use immich_go_server.Api.State.{handle_state}
use immich_go_server.Coordinator.{Repository}
use immich_go_server.World.{
  World, WorldAction, Failure, call_failed, bad_signature, unexpected_status, unknown_peer, call,
  local,
}
use immich_go_server.World.Client.{submit_task as post_task}
use immich_go_server.World.Client.{by_store}

-- `NodeID` and `Secret` of the client, with its limit on clock skew and its clock
pub record Client : Type 0 where
  pub self_node_id : String
  pub secret : String
  pub max_skew : ℤ
  pub now : ℤ

-- `Peer`
pub record PeerUrl : Type 0 where
  pub node_id : String
  pub url : String

pub record GlobalView (F : Type 0) : Type 0 where
  pub self_node_id : String
  pub nodes : List String
  pub disks : Assoc (Disk F)
  pub directories : Assoc (Directory F)
  pub coordinator : String

module _ (fl : Float64) (sign_payload : String → String → ℤ → StatePayload fl.F → String)
    (peer_secret : String → String) (peer_now : String → ℤ) (client : Client) where
  abbrev Step : Type 0 → Type 0
  Step A = WorldAction fl.F A

  -- ---- the state of a peer ----

  abbrev pub checked : StatePayload fl.F → Result Failure (StatePayload fl.F)
  checked sp =
      if verify_state_payload sign_payload client.secret sp client.now client.max_skew
      then ok sp
      else err bad_signature

  abbrev pub state_body : Option (StatePayload fl.F) → Result Failure (StatePayload fl.F)
  state_body none = err call_failed
  state_body (some sp) = checked sp

  abbrev pub state_reply :
      Option (ℕ × Option (StatePayload fl.F)) × World fl.F
      → Result Failure (StatePayload fl.F) × World fl.F
  state_reply (none, w) = (err call_failed, w)
  state_reply (some (status, body), w) =
      if eqb status 200 then (state_body body, w) else (err (unexpected_status status), w)

  unfoldable pub fetch_state : String → Step (StatePayload fl.F)
  fetch_state url w =
      state_reply
        (call url (by_store (handle_state sign_payload (peer_secret url) (peer_now url) "GET")) w)

  -- ---- `Federation.Run` ----

  unfoldable pub fetch_nodes : List PeerUrl → Step (List (Node fl.F))
  fetch_nodes [] = pure []
  fetch_nodes (p ∷ ps) = do
    sp ← fetch_state p.url
    nodes ← fetch_nodes ps
    pure (node_from_state fl sp.node_id sp ∷ nodes)

  abbrev pub view : String → List (Node fl.F) → GlobalView fl.F
  view self_node_id nodes = record {
    self_node_id = self_node_id;
    nodes = sort_by (λ id. id) (map (λ n. n.node_id) nodes);
    disks = aggregate_disk_stats nodes;
    directories = aggregate_directory_stats nodes;
    coordinator = elect_coordinator fl nodes;
  }

  unfoldable pub run : String → StatePayload fl.F → List PeerUrl → Step (GlobalView fl.F)
  run self_node_id self_state peers = do
    nodes ← fetch_nodes peers
    pure (view self_node_id (node_from_state fl self_node_id self_state ∷ nodes))

  -- ---- `GlobalRepo`: `now` is the clock of the node, `peer_url` its `PeerURL` ----

  module _ (now : ℤ) (peer_url : String → Option String) (self_id : String)
      (disks : Assoc (Disk fl.F)) where
    abbrev pub owner_of : Option (Disk fl.F) → String
    owner_of none = ""
    owner_of (some d) = d.mounted_node_id

    abbrev pub sent : String → Option String → Task → Step Unit
    sent owner none t = raise (unknown_peer owner)
    sent owner (some url) t = post_task (peer_now url) url t

    unfoldable pub submit_routed : Task → Step Unit
    submit_routed t =
        let owner = owner_of (lookup t.dst_disk disks) in
        if owner == "" || owner == self_id
        then local (submit_task now t)
        else sent owner (peer_url owner) t

    abbrev pub counted_here : String → World fl.F → ℤ × World fl.F
    counted_here id w =
        let (n, s) = replica_count id w.host.store in
        (pos n, record w { host = record w.host { store = s } })

    abbrev pub global_repository : Repository fl.F Failure (World fl.F)
    global_repository = record {
      list_directories = local list_directories;
      list_disks = pure (sort_by (λ d. d.disk_serial) (rows_of disks));
      list_assets = local list_assets;
      list_replicas = λ id. local (list_replicas id);
      replica_count = counted_here;
      submit_task = submit_routed;
    }
