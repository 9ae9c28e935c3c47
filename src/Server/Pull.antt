-- ===== src/Server/Pull.antt =====
-- Pulling the view of the cluster leaves the node's table of tasks as it is.
use immich_go_server.Prelude.{
  ℕ, ℤ, String, ◌≡◌, refl, ◌∙◌, inl, inr, List, [], ◌∷◌, Option, none, some, arith, ◌==◌, Assoc,
  lookup, Bool-cases, Option-cases,
}
use immich_go_server.Float64.{Float64}
use immich_go_server.Model.{Disk, Directory}
use immich_go_server.Messages.{StatePayload}
use immich_go_server.Discovery.{Registry}
use immich_go_server.Store.{Store, TaskRow, rows_of}
use immich_go_server.Store.Disks.{get_disk_location, list_disks}
use immich_go_server.Store.Directories.{list_directories}
use immich_go_server.Store.Views.{get_state}
use immich_go_server.World.{World, call}
use immich_go_server.World.Frame.{call_host}
use immich_go_server.Worker.Tasks.Frame.{IsStill, Keeps, Keeps-of, query-Keeps}
use immich_go_server.Worker.Tasks.Copies.{
  IsQuiet, pure-Keeps, Keeps-bind, Keeps-then, Keeps-of_host,
}
use immich_go_server.Worker.Tasks.Keeps.{save_directory-Keeps}
use immich_go_server.Federation.{Client, PeerUrl, state_reply, fetch_state, fetch_nodes, run}
use immich_go_server.Server.{node_locator, other_peers, own_state, save_directories, federate}

module _ {F : Type 0} where
  location-IsStill :
      (T : Assoc TaskRow) (serial : String) (s : Store F)
      → IsStill T s
      → IsStill T (get_disk_location serial s).1
  unfolding get_disk_location
  location-IsStill T serial s h = query-Keeps T (λ t. lookup serial t.disk) s h

  -- The locator of a node asks its database for the disks that the view lacks.
  pub node_locator-IsQuiet :
      (self_id : String) (disks : Assoc (Disk F)) (reg : Registry)
      → IsQuiet (node_locator self_id disks reg)
  node_locator-IsQuiet self_id disks reg serial s T h = elim (Option-cases (lookup serial disks)) [
    | inl n ↦ rw n (location-IsStill T serial s h)
    | inr (d, e) ↦ elim (Bool-cases (d.mounted_node_id == "")) [
      | inl t ↦ rw (e, t) (location-IsStill T serial s h)
      | inr f ↦ rw (e, f) h
    ]
  ]

  get_state-IsStill : (T : Assoc TaskRow) (s : Store F) → IsStill T s → IsStill T (get_state s).1
  unfolding get_state list_disks list_directories
  get_state-IsStill T s h = rw (h.1) (h.0, refl)

module _ (fl : Float64) (sign_payload : String → String → ℤ → StatePayload fl.F → String)
    (peer_secret : String → String) (peer_now : String → ℤ) (client : Client)
    (T : Assoc TaskRow) where
  reply_host :
      (r : Option (ℕ × Option (StatePayload fl.F)) × World fl.F)
      → (state_reply fl sign_payload peer_secret peer_now client r).1.host ≡ r.1.host
  reply_host (none, w) = refl
  reply_host (some (status, body), w) = ground arith

  fetch_state-Keeps :
      (url : String) → Keeps T (fetch_state fl sign_payload peer_secret peer_now client url)
  unfolding fetch_state
  fetch_state-Keeps url = Keeps-of_host T _ (λ w. reply_host (call url _ w) ∙ call_host url _ w)

  fetch_nodes-Keeps :
      (ps : List PeerUrl) → Keeps T (fetch_nodes fl sign_payload peer_secret peer_now client ps)
  unfolding fetch_nodes
  fetch_nodes-Keeps [] = pure-Keeps T []
  fetch_nodes-Keeps (p ∷ ps) =
      Keeps-bind T _ _ (fetch_state-Keeps p.url)
        λ sp. Keeps-bind T _ _ (fetch_nodes-Keeps ps) λ nodes. pure-Keeps T _

  run-Keeps :
      (id : String) (state : StatePayload fl.F) (ps : List PeerUrl)
      → Keeps T (run fl sign_payload peer_secret peer_now client id state ps)
  unfolding run
  run-Keeps id state ps = Keeps-bind T _ _ (fetch_nodes-Keeps ps) λ nodes. pure-Keeps T _

  module _ (reg : Registry) (task_id : String) where
    save_directories-Keeps :
        (ds : Assoc (Directory fl.F))
        → Keeps T (save_directories fl sign_payload peer_secret peer_now client reg task_id ds)
    unfolding save_directories
    save_directories-Keeps [] = pure-Keeps T tt
    save_directories-Keeps ((_, d) ∷ rest) =
        Keeps-then T _ _ (save_directory-Keeps T client.now d) (save_directories-Keeps rest)

    own_state-Keeps : Keeps T (own_state fl sign_payload peer_secret peer_now client reg task_id)
    own_state-Keeps = Keeps-of T _ (λ w h. get_state-IsStill T w.host.store h)

    pub federate-Keeps : Keeps T (federate fl sign_payload peer_secret peer_now client reg task_id)
    unfolding federate
    federate-Keeps = Keeps-bind T _ _ own_state-Keeps λ state.
        Keeps-bind T _ _
          (run-Keeps client.self_node_id state (other_peers client.self_node_id (rows_of reg)))
          λ gv. Keeps-then T _ _ (save_directories-Keeps gv.directories) (pure-Keeps T gv)
