-- ===== src/Worker/Tasks/Frame.antt =====
-- Carrying out a task leaves the node's table of tasks as it is: only the loop writes to it.
use immich_go_server.Prelude.{◌≡◌, refl, [], arith, Result, ok, err, Triple, Post, Assoc}
use immich_go_server.Store.{Store, StoreError, StoreAction, TaskRow, exec, query}
use immich_go_server.Host.{Host, HostAction, on_store}
use immich_go_server.World.{World, WorldAction, on_host, local}

keep : {S E A : Type 0} (P : S → Type 0) (r : Result E A × S) → P r.1 → Post (λ _. P) (λ _. P) r
keep P (ok a, s) h = h
keep P (err e, s) h = h

module _ {F : Type 0} (T : Assoc TaskRow) where
  -- The table is `T` and the database works.
  abbrev pub IsStill : Store F → Type 0
  IsStill s = (s.task ≡ T) × (s.faults ≡ [])

  abbrev pub HostStill : Host F → Type 0
  HostStill h = IsStill h.store

  abbrev pub WorldStill : World F → Type 0
  WorldStill w = IsStill w.host.store

  abbrev pub StoreKeeps : {A : Type 0} → StoreAction F A → Type 0
  StoreKeeps act = (s : Store F) → IsStill s → IsStill (act s).1

  abbrev pub HostKeeps : {A : Type 0} → HostAction F A → Type 0
  HostKeeps act = Triple HostStill act (λ _. HostStill) (λ _. HostStill)

  abbrev pub Keeps : {A : Type 0} → WorldAction F A → Type 0
  Keeps act = Triple WorldStill act (λ _. WorldStill) (λ _. WorldStill)

  pub query-Keeps : {A : Type 0} (f : Store F → A) → StoreKeeps (query f)
  query-Keeps f s h = rw (h.1) (ground (arith, h.0))

  pub exec-Keeps :
      (f : Store F → Store F) → ((s : Store F) → IsStill s → IsStill (f s)) → StoreKeeps (exec f)
  exec-Keeps f k s h = rw (h.1) (k (record s { faults = [] }) (h.0, refl))

  pub Keeps-of :
      {A : Type 0} (act : WorldAction F A)
      → ((w : World F) → WorldStill w → WorldStill (act w).1)
      → Keeps act
  Keeps-of act f = record { at = λ w h. keep WorldStill (act w) (f w h) }

  lifted_still :
      {A : Type 0} (r : Result StoreError A × Host F) (w : World F)
      → HostStill r.1
      → Post {A = A} (λ _. WorldStill) (λ _. WorldStill) (on_host (λ _. r) w)
  lifted_still (ok a, h) w k = k
  lifted_still (err e, h) w k = k

  unkeep :
      {A : Type 0} (r : Result StoreError A × Host F)
      → Post (λ _. HostStill) (λ _. HostStill) r
      → HostStill r.1
  unkeep (ok a, s) h = h
  unkeep (err e, s) h = h

  pub on_host-Keeps : {A : Type 0} (act : HostAction F A) → HostKeeps act → Keeps (on_host act)
  on_host-Keeps act k = record {
    at = λ w h. lifted_still (act w.host) w (unkeep (act w.host) (k.at w.host h));
  }

  pub local-Keeps : {A : Type 0} (act : StoreAction F A) → StoreKeeps act → Keeps (local act)
  local-Keeps act k = record { at = λ w h. lifted_still (on_store act w.host) w (k w.host.store h) }
