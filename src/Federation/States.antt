-- ===== src/Federation/States.antt =====
-- The state of a peer, from its database to the node that pulls it.
use immich_go_server.Prelude.{
  ℤ, pos, String, ◌≡◌, ◌≢◌, refl, sym, ap, ◌∙◌, true, false, some, arith, ◌==◌, eqb_ℤ, eq_iff,
  eq_refl, lookup, List, Result, ok, err,
}
use immich_go_server.Float64.{Float64}
use immich_go_server.Model.{Disk}
use immich_go_server.Messages.{StatePayload}
use immich_go_server.Store.{Store, StoreError}
use immich_go_server.Store.Disks.{list_disks}
use immich_go_server.Store.Views.{get_state, state_with}
use immich_go_server.Crypto.{verify_state_payload, is_stale}
use immich_go_server.Host.{Host}
use immich_go_server.Api.State.{signed, handle_state}
use immich_go_server.World.{World, answered, next_delivery, call}
use immich_go_server.Federation.{Client, fetch_state}

unsigned_with :
    {F : Type 0} (r : Result StoreError (List (Disk F))) (s : Store F)
    → (state_with r s).0.signature ≡ ""
unsigned_with (err e) s = refl
unsigned_with (ok disks) s = refl

get_state_unsigned : {F : Type 0} (s : Store F) → (get_state s).0.signature ≡ ""
unfolding get_state
get_state_unsigned s = unsigned_with (list_disks s).0 (list_disks s).1

module _ (fl : Float64) (sign_payload : String → String → ℤ → StatePayload fl.F → String)
    (peer_secret : String → String) (peer_now : String → ℤ) (client : Client) where
  signed_verifies :
      (secret : String) (now : ℤ) (p : StatePayload fl.F)
      → p.signature ≡ ""
      → (now ≢ pos 0)
      → ((t : ℤ) (q : StatePayload fl.F) → sign_payload secret q.node_id t q ≢ "")
      → is_stale now client.now client.max_skew ≡ false
      → verify_state_payload sign_payload secret
          (signed sign_payload secret now p)
          client.now
          client.max_skew
        ≡ true
  unfolding verify_state_payload
  signed_verifies secret now p unsigned timed signs fresh =
      let dated = record p { signed_at = now } in
      let some_sig : (sign_payload secret p.node_id now dated == "") ≡ false =
        ground (arith, signs now dated, eq_iff (sign_payload secret p.node_id now dated) "") in
      let some_time : eqb_ℤ now (pos 0) ≡ false = ground arith in
      let whole : record dated { signature = "" } ≡ dated =
        ap (λ g. record p { signed_at = now; signature = g }) (sym unsigned) in
      rw (some_sig, some_time, fresh)
        (ap (λ q. sign_payload secret p.node_id now q == sign_payload secret p.node_id now dated)
            whole
          ∙ eq_refl (sign_payload secret p.node_id now dated))

  -- A peer that gets the call and whose answer comes back, that has the same secret and whose clock agrees
  -- within the limit and is not 0, is believed: what the call returns is the state that its database reports,
  -- with the time and the signature of the answer, if a signature is never empty.
  pub fetch_state-handle_state :
      (url : String) (w : World fl.F) (peer : Host fl.F)
      → lookup url w.peers ≡ some peer
      → next_delivery w.deliveries ≡ answered
      → peer_secret url ≡ client.secret
      → is_stale (peer_now url) client.now client.max_skew ≡ false
      → (peer_now url ≢ pos 0)
      → ((t : ℤ) (q : StatePayload fl.F) → sign_payload client.secret q.node_id t q ≢ "")
      → (fetch_state fl sign_payload peer_secret peer_now client url w).0
        ≡ ok (signed sign_payload client.secret (peer_now url) (get_state peer.store).0)
  unfolding fetch_state call handle_state
  fetch_state-handle_state url w peer there served same fresh timed signs =
      rw
        (
          served,
          there,
          same,
          signed_verifies client.secret (peer_now url) (get_state peer.store).0
              (get_state_unsigned peer.store) timed signs fresh,
        )
        refl
