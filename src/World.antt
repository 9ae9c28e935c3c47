-- ===== src/World.antt =====
-- A node among its peers: what it keeps, what its peers keep, and what becomes of the calls and of the
-- disk operations that are still to come. internal/cluster/federation.go calls the handlers of the peers.
-- Every call returns: that a peer lets one hang, which the code does not bound, is not modelled.
-- A call is signed (Api/Access); one that a peer refuses changes nothing there, like one that is lost.
pub mod Client
pub mod Frame
use immich_go_server.Prelude.{
  ℕ, String, Bool, List, [], ◌∷◌, Option, none, some, Assoc, lookup, insert, Result, ok, err,
  Action,
}
use immich_go_server.Store.{StoreError, StoreAction}
use immich_go_server.Host.{Host, HostAction, on_store}
use immich_go_server.Executor.{Error, Outcome}

-- The peer never gets the call, or its answer never comes back.
pub data Delivery : Type 0 where
  answered unreached unanswered : Delivery

-- `peers` is known by the base URL. A call past the end of `deliveries` is answered.
pub record World (F : Type 0) : Type 0 where
  pub host : Host F
  pub peers : Assoc (Host F)
  pub deliveries : List Delivery
  pub outcomes : List Outcome

-- What the calls of the client and the tasks of the worker return as `error`.
pub data Failure : Type 0 where
  store_failed : StoreError → Failure
  copy_failed : Error → Failure
  call_failed mkdir_failed bad_signature : Failure
  unexpected_status : ℕ → Failure
  no_peer_url no_blob_root directory_not_found asset_not_found : String → Failure
  no_healthy_replica unknown_task_type not_verified unknown_peer : String → Failure

abbrev pub WorldAction : Type 0 → Type 0 → Type 0
WorldAction F A = Action Failure (World F) A

abbrev pub next_delivery : List Delivery → Delivery
next_delivery [] = answered
next_delivery (d ∷ _) = d

abbrev later : List Delivery → List Delivery
later [] = []
later (_ ∷ ds) = ds

abbrev pub called : {F : Type 0} → World F → World F
called w = record w { deliveries = later w.deliveries }

module _ {F : Type 0} {A : Type 0} where
  abbrev lifted : Result StoreError A × Host F → World F → Result Failure A × World F
  lifted (ok a, h) w = (ok a, record w { host = h })
  lifted (err e, h) w = (err (store_failed e), record w { host = h })

  abbrev pub on_host : HostAction F A → WorldAction F A
  on_host act w = lifted (act w.host) w

  -- A statement on the node's own database.
  abbrev pub local : StoreAction F A → WorldAction F A
  local act w = lifted (on_store act w.host) w

  abbrev pub reached :
      String → Delivery → (Host F → A × Host F) → Option (Host F) → World F → Option A × World F
  reached url unreached handler h w = (none, w)
  reached url answered handler none w = (none, w)
  reached url unanswered handler none w = (none, w)
  reached url answered handler (some h) w =
      let (a, h') = handler h in (some a, record w { peers = insert url h' w.peers })
  reached url unanswered handler (some h) w =
      let (a, h') = handler h in (none, record w { peers = insert url h' w.peers })

  -- `c.HTTPClient.Do(req)`, by the handler of the peer
  unfoldable pub call : String → (Host F → A × Host F) → World F → Option A × World F
  call url handler w =
      reached url (next_delivery w.deliveries) handler (lookup url w.peers) (called w)
