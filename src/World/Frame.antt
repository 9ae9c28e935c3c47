-- ===== src/World/Frame.antt =====
-- A call changes the peer that it reaches, and nothing of the node that makes it.
use mathlib.Core.Option.{some-injective}
use immich_go_server.Prelude.{
  ℕ, ℤ, String, ◌≡◌, refl, ap, ◌∙◌, inl, inr, Option, some, none, arith, eqb, ok, err, Result,
  lookup, lookup-insert_self, Bool-cases,
}
use immich_go_server.Model.{Task}
use immich_go_server.Messages.{DirectoryDto}
use immich_go_server.Store.{StoreError, StoreAction}
use immich_go_server.Host.{Host, on_store}
use immich_go_server.Release.{ReleaseRequest, handle_release_source}
use immich_go_server.Api.{handle_get_directory, handle_rehost_directory, handle_submit_task}
use immich_go_server.World.{
  World, Delivery, answered, unreached, unanswered, next_delivery, called, reached, on_host, local,
  call,
}
use immich_go_server.World.Client
use immich_go_server.World.Client.{by_store, status_answer, directory_reply}

module _ {F : Type 0} where
  pub call_host :
      {A : Type 0} (url : String) (handler : Host F → A × Host F) (w : World F)
      → (call url handler w).1.host ≡ w.host
  unfolding call
  call_host url handler w = ground arith

  status_host : (r : Option ℕ × World F) → (status_answer r).1.host ≡ r.1.host
  status_host (none, w) = refl
  status_host (some status, w) = ground arith

  status_call :
      (url : String) (handler : Host F → ℕ × Host F) (w : World F)
      → (status_answer (call url handler w)).1.host ≡ w.host
  status_call url handler w = status_host (call url handler w) ∙ call_host url handler w

  reply_host :
      (r : Option (ℕ × Option (DirectoryDto F)) × World F) → (directory_reply r).1.host ≡ r.1.host
  reply_host (none, w) = refl
  reply_host (some (status, dto), w) = refl

  pub get_directory_host :
      (url dir_key : String) (w : World F) → (Client.get_directory url dir_key w).1.host ≡ w.host
  unfolding Client.get_directory
  get_directory_host url dir_key w =
      reply_host (call url (by_store (handle_get_directory "GET" dir_key)) w) ∙ call_host url _ w

  pub rehost_directory_host :
      (url dir_key node : String) (w : World F)
      → (Client.rehost_directory url dir_key node w).1.host ≡ w.host
  unfolding Client.rehost_directory
  rehost_directory_host url dir_key node w =
      status_call url
        (by_store (λ s. handle_rehost_directory s.node_id "POST" (some (dir_key, node)) s)) w

  pub release_source_host :
      (url : String) (req : ReleaseRequest) (w : World F)
      → (Client.release_source url req w).1.host ≡ w.host
  unfolding Client.release_source
  release_source_host url req w =
      status_call url (λ h. handle_release_source h.store.node_id "POST" (some req) h) w

  pub submit_task_host :
      (now : ℤ) (url : String) (t : Task) (w : World F)
      → (Client.submit_task now url t w).1.host ≡ w.host
  unfolding Client.submit_task
  submit_task_host now url t w =
      status_call url (by_store (handle_submit_task now "POST" (some t))) w

  -- A call that is answered has been answered by the handler of the peer that is there.
  reached_by :
      {A : Type 0} (url : String) (d : Delivery) (handler : Host F → A × Host F)
      (o : Option (Host F)) (w : World F) (a : A)
      → (reached url d handler o w).0 ≡ some a
      → (h : Host F) × (o ≡ some h)
        × ((handler h).0 ≡ a)
        × (lookup url (reached url d handler o w).1.peers ≡ some (handler h).1)
  reached_by url unreached handler o w a e = cc
  reached_by url answered handler none w a e = cc
  reached_by url unanswered handler none w a e = cc
  reached_by url answered handler (some h) w a e =
      (h, refl, some-injective _ _ e, lookup-insert_self url (handler h).1 w.peers)
  reached_by url unanswered handler (some h) w a e = cc

  pub call_answered :
      {A : Type 0} (url : String) (handler : Host F → A × Host F) (w : World F) (a : A)
      → (call url handler w).0 ≡ some a
      → (h : Host F) × (lookup url w.peers ≡ some h)
        × ((handler h).0 ≡ a)
        × (lookup url (call url handler w).1.peers ≡ some (handler h).1)
  unfolding call
  call_answered url handler w a e =
      reached_by url (next_delivery w.deliveries) handler (lookup url w.peers) (called w) a e

  pub status_ok :
      (r : Option ℕ × World F)
      → (status_answer r).0 ≡ ok tt
      → (r.0 ≡ some 200) × ((status_answer r).1 ≡ r.1)
  status_ok (none, w) e = cc
  status_ok (some status, w) e = elim (Bool-cases (eqb status 200)) [
    | inl t ↦ let same : status ≡ 200 = ground arith in rw t (ap some same, refl)
    | inr f ↦ cc
  ]

  pub local_store :
      {A : Type 0} (act : StoreAction F A) (w : World F)
      → (local act w).1.host.store ≡ (act w.host.store).1
  local_store act w = ground arith

  lifted_ok :
      {A : Type 0} (r : Result StoreError A × Host F) (w : World F) (a : A)
      → (on_host (λ _. r) w).0 ≡ ok a
      → r.0 ≡ ok a
  lifted_ok (ok b, h) w a e = cc
  lifted_ok (err x, h) w a e = cc

  pub local_ok :
      {A : Type 0} (act : StoreAction F A) (w : World F) (a : A)
      → (local act w).0 ≡ ok a
      → (act w.host.store).0 ≡ ok a
  local_ok act w a e = lifted_ok (on_store act w.host) w a e
