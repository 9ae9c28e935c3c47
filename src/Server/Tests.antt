-- ===== src/Server/Tests.antt =====
-- A tick of a node that has heard of a peer which does not answer.
use immich_go_server.Prelude.{ℤ, pos, String, ◌≡◌, refl, true, [], ◌∷◌, some, concat, lookup}
use immich_go_server.Float64.{hundredths}
use immich_go_server.Messages.{StatePayload}
use immich_go_server.Store.{TaskRow}
use immich_go_server.Discovery.{Registry}
use immich_go_server.Federation.{Client}
use immich_go_server.Worker.Tests.{world, row}
use immich_go_server.Worker.Tasks.Settles.{IsAfter}
use immich_go_server.World.{World}
use immich_go_server.Server.{tick}
use immich_go_server.Server.Tick.{tick_settles}

abbrev sign : String → String → ℤ → StatePayload ℤ → String
sign secret node_id t p = concat "s" secret

abbrev client : Client
client = record { self_node_id = "n1"; secret = "key"; max_skew = pos 300; now = pos 1000 }

abbrev reg : Registry
reg = ("n2", record { node_id = "n2"; addr = "10.0.0.2:2283"; last_seen = pos 900 }) ∷ []

abbrev after : World ℤ
after = tick hundredths sign (λ _. "key") (λ _. pos 1010) client reg "mig-1" world

tick_settles_example :
    (row' : TaskRow) × (lookup "rep-a" after.host.store.task ≡ some row')
    × IsAfter true (row "rep-a" "REPLICA") row'
unfolding lookup
tick_settles_example =
    tick_settles hundredths sign (λ _. "key") (λ _. pos 1010) client reg "mig-1" "rep-a"
      (row "rep-a" "REPLICA") world refl (refl, refl, (refl, refl, tt)) refl
