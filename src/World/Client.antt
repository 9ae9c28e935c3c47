-- ===== src/World/Client.antt =====
-- internal/cluster/federation.go: the calls that the worker and the coordinator make of their peers.
use immich_go_server.Prelude.{ℕ, ℤ, String, Option, none, some, if◌then◌else◌, eqb, Result, ok, err}
use immich_go_server.Model.{Task, Directory}
use immich_go_server.Messages.{DirectoryDto, to_model}
use immich_go_server.Store.{Store}
use immich_go_server.Host.{Host}
use immich_go_server.Api.{handle_get_directory, handle_rehost_directory, handle_submit_task}
use immich_go_server.Release.{ReleaseRequest, handle_release_source}
use immich_go_server.World.{World, WorldAction, Failure, call_failed, unexpected_status, call}

module _ {F : Type 0} where
  abbrev pub by_store : {A : Type 0} → (Store F → A × Store F) → Host F → A × Host F
  by_store handler h = let (a, s) = handler h.store in (a, record h { store = s })

  abbrev pub status_answer : Option ℕ × World F → Result Failure Unit × World F
  status_answer (none, w) = (err call_failed, w)
  status_answer (some status, w) =
      if eqb status 200 then (ok tt, w) else (err (unexpected_status status), w)

  -- A 200 comes with a directory; a body without one cannot be decoded.
  abbrev pub decoded : Option (DirectoryDto F) → Result Failure (Option (Directory F))
  decoded none = err call_failed
  decoded (some dto) = ok (some (to_model dto))

  abbrev pub directory_found : ℕ → Option (DirectoryDto F) → Result Failure (Option (Directory F))
  directory_found status dto =
      if eqb status 404
      then ok none
      else if eqb status 200
      then decoded dto
      else err (unexpected_status status)

  abbrev pub directory_reply :
      Option (ℕ × Option (DirectoryDto F)) × World F
      → Result Failure (Option (Directory F)) × World F
  directory_reply (none, w) = (err call_failed, w)
  directory_reply (some (status, dto), w) = (directory_found status dto, w)

  unfoldable pub get_directory : String → String → WorldAction F (Option (Directory F))
  get_directory url dir_key w =
      directory_reply (call url (by_store (handle_get_directory "GET" dir_key)) w)

  unfoldable pub rehost_directory : String → String → String → WorldAction F Unit
  rehost_directory url dir_key relinquish_node w = status_answer (
      call url
        (by_store
          (λ s. handle_rehost_directory s.node_id "POST" (some (dir_key, relinquish_node)) s))
        w)

  unfoldable pub release_source : String → ReleaseRequest → WorldAction F Unit
  release_source url req w =
      status_answer (call url (λ h. handle_release_source h.store.node_id "POST" (some req) h) w)

  -- `now` is the peer's clock.
  unfoldable pub submit_task : ℤ → String → Task → WorldAction F Unit
  submit_task now url task w =
      status_answer (call url (by_store (handle_submit_task now "POST" (some task))) w)
