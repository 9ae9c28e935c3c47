-- ===== src/Api/State.antt =====
-- internal/clusterapi/clusterapi.go: `handleState`, the state of a node as it signs it for its peers. What
-- only the dashboard reads of it is left out.
use immich_go_server.Prelude.{ℕ, ℤ, String, Option, some, none, if◌then◌else◌, ◌==◌}
use immich_go_server.Messages.{StatePayload}
use immich_go_server.Store.{Store}
use immich_go_server.Store.Views.{get_state}

module _ {F : Type 0} (sign_payload : String → String → ℤ → StatePayload F → String) where
  abbrev pub signed : String → ℤ → StatePayload F → StatePayload F
  signed secret now p =
      let dated = record p { signed_at = now } in
      record dated { signature = sign_payload secret p.node_id now dated }

  -- `now` is the result of `h.Now()`.
  unfoldable pub handle_state :
      String → ℤ → String → Store F → (ℕ × Option (StatePayload F)) × Store F
  handle_state secret now method s =
      if method == "GET"
      then (let (p, s') = get_state s in ((200, some (signed secret now p)), s'))
      else ((405, none), s)
