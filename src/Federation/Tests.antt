-- ===== src/Federation/Tests.antt =====
-- A node with one peer, n2, on which the target disk of a task is mounted.
use immich_go_server.Prelude.{
  ℤ, pos, String, ◌≡◌, refl, ◌⊎◌, false, [], ◌∷◌, Option, none, some, concat, add64, sub64, wrap,
  ◌+ℤ◌, ◌-ℤ◌, if◌then◌else◌, ◌==◌, Assoc, lookup, ok,
}
use immich_go_server.Float64.{hundredths}
use immich_go_server.Model.{Disk, Task}
use immich_go_server.Messages.{StatePayload}
use immich_go_server.Store.Views.{get_state}
use immich_go_server.Host.{Host}
use immich_go_server.Api.State.{signed}
use immich_go_server.Crypto.{is_stale}
use immich_go_server.Store.Tasks.{submit_task}
use immich_go_server.Api.{handle_submit_task}
use immich_go_server.World.Client.{submit_task as post_task}
use immich_go_server.World.{World, call}
use immich_go_server.Worker.Tests.{world, row, disk}
use immich_go_server.Federation.{Client, fetch_state, submit_routed}
use immich_go_server.Federation.Routing.{IsKeptHere, IsKeptThere, submit_routed_lands}
use immich_go_server.Federation.States.{fetch_state-handle_state}

abbrev sign : String → String → ℤ → StatePayload ℤ → String
sign secret node_id t p = concat "s" secret

abbrev client : Client
client = record { self_node_id = "n1"; secret = "key"; max_skew = pos 300; now = pos 1000 }

abbrev peer : Host ℤ
peer = record world.host { store = record world.host.store { node_id = "n2" } }

abbrev pair : World ℤ
pair = record world { peers = ("http://n2", peer) ∷ [] }

abbrev url : String → Option String
url node_id = if node_id == "n2" then some "http://n2" else none

abbrev disks : Assoc (Disk ℤ)
disks = ("d2", record (disk "d2" "/d2") { mounted_node_id = "n2" }) ∷ []

abbrev task : Task
task = (row "rep-b" "REPLICA").task

fresh : is_stale (pos 1010) (pos 1000) (pos 300) ≡ false
unfolding add64 sub64 wrap ◌+ℤ◌ ◌-ℤ◌
fresh = refl

fetch_state-handle_state_example :
    (fetch_state hundredths sign (λ _. "key") (λ _. pos 1010) client "http://n2" pair).0
    ≡ ok (signed sign "key" (pos 1010) (get_state peer.store).0)
unfolding lookup
fetch_state-handle_state_example =
    fetch_state-handle_state hundredths sign (λ _. "key") (λ _. pos 1010) client "http://n2" pair
      peer refl refl refl fresh (λ e. cc) (λ t q e. cc)

reported :
    (submit_routed hundredths sign
      (λ _. "key")
      (λ _. pos 1010)
      client
      (pos 1000)
      url
      "n1"
      disks
      task
      pair).0
    ≡ ok tt
unfolding submit_routed lookup post_task call handle_submit_task submit_task
reported = refl

submit_routed_lands_example :
    IsKeptHere hundredths sign
      (λ _. "key")
      (λ _. pos 1010)
      client
      (pos 1000)
      url
      "n1"
      disks
      task
      pair
      (submit_routed hundredths sign
        (λ _. "key")
        (λ _. pos 1010)
        client
        (pos 1000)
        url
        "n1"
        disks
        task
        pair).1
    ⊎ IsKeptThere hundredths sign
        (λ _. "key")
        (λ _. pos 1010)
        client
        (pos 1000)
        url
        "n1"
        disks
        task
        pair
        (submit_routed hundredths sign
          (λ _. "key")
          (λ _. pos 1010)
          client
          (pos 1000)
          url
          "n1"
          disks
          task
          pair).1
submit_routed_lands_example =
    submit_routed_lands hundredths sign (λ _. "key") (λ _. pos 1010) client (pos 1000) url "n1"
      disks task pair reported
