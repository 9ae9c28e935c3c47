-- ===== src/Federation/Routing.antt =====
-- Where a task ends up that the coordinator submits.
use immich_go_server.Prelude.{
  ℤ, String, ◌≡◌, ◌≢◌, refl, sym, ap, ◌∙◌, inl, inr, ◌⊎◌, true, false, ◌||◌, if◌then◌else◌, Option,
  none, some, arith, ◌==◌, eq_refl, eq_iff, subst, Assoc, lookup, Bool-cases, Result, ok, err,
}
use immich_go_server.Float64.{Float64}
use immich_go_server.Model.{Disk, Task}
use immich_go_server.Messages.{StatePayload}
use immich_go_server.Store.{Store, StoreError, faulty}
use immich_go_server.Store.Rows.{lookup-upsert, updated}
use immich_go_server.Store.Tasks.{submit_task}
use immich_go_server.Store.Tasks.Lifecycle.{queued, submit_task_table}
use immich_go_server.Host.{Host}
use immich_go_server.Api.{status_of, handle_submit_task}
use immich_go_server.World.{World, Failure, local, call}
use immich_go_server.World.Client.{submit_task as post_task}
use immich_go_server.World.Client.{by_store}
use immich_go_server.World.Frame.{call_answered, status_ok, local_ok, local_store}
use immich_go_server.Federation.{Client, owner_of, sent, submit_routed}

status_ok_result : (r : Result StoreError Unit) → status_of r ≡ 200 → r ≡ ok tt
status_ok_result (ok _) e = refl
status_ok_result (err x) e = absurd (omega arith)

module _ {F : Type 0} where
  -- The task is queued in `after`, or was there in `before` and is as it was.
  abbrev pub IsTaken : ℤ → Task → Store F → Store F → Type 0
  IsTaken now t before after =
      lookup t.task_id after.task
      ≡ some (updated (queued now t) (λ old. old) (lookup t.task_id before.task))

  submit_task_ok :
      (now : ℤ) (t : Task) (s : Store F)
      → (submit_task now t s).0 ≡ ok tt
      → IsTaken now t s (submit_task now t s).1
  unfolding submit_task
  submit_task_ok now t s h = elim (Bool-cases (faulty s.faults)) [
    | inl f ↦ absurd (ground arith)
    | inr n ↦
        ap (lookup t.task_id) (submit_task_table now t s)
        ∙ rw n (
            lookup-upsert t.task_id t.task_id (queued now t) (λ old. old) s.task
            ∙ rw (eq_refl) refl)
  ]

  -- The peer that has answered 200 has taken the task.
  post_task_ok :
      (now : ℤ) (url : String) (t : Task) (w : World F)
      → (post_task now url t w).0 ≡ ok tt
      → (before : Host F) × (after : Host F) × (lookup url w.peers ≡ some before)
        × (lookup url (post_task now url t w).1.peers ≡ some after)
        × IsTaken now t before.store after.store
  unfolding post_task handle_submit_task
  post_task_ok now url t w h =
      let handler = by_store (handle_submit_task now "POST" (some t)) in
      let (reached, same) = status_ok (call url handler w) h in
      let (before, there, good, kept) = call_answered url handler w 200 reached in
      (
        before,
        (handler before).1,
        there,
        rw same kept,
        submit_task_ok now t before.store (status_ok_result _ good),
      )

module _ (fl : Float64) (sign_payload : String → String → ℤ → StatePayload fl.F → String)
    (peer_secret : String → String) (peer_now : String → ℤ) (client : Client) (now : ℤ)
    (peer_url : String → Option String) (self_id : String) (disks : Assoc (Disk fl.F)) where
  abbrev submit : Task → World fl.F → Result Failure Unit × World fl.F
  submit = submit_routed fl sign_payload peer_secret peer_now client now peer_url self_id disks

  -- The target disk is not known, or mounted nowhere or on the node itself.
  abbrev pub IsOurs : Task → Type 0
  IsOurs t =
      (lookup t.dst_disk disks ≡ none)
      ⊎ ((d : Disk fl.F) × (lookup t.dst_disk disks ≡ some d)
          × ((d.mounted_node_id ≡ "") ⊎ (d.mounted_node_id ≡ self_id)))

  -- The node keeps the task itself.
  abbrev pub IsKeptHere : Task → World fl.F → World fl.F → Type 0
  IsKeptHere t w w' = IsOurs t × IsTaken now t w.host.store w'.host.store

  -- The peer on which the target disk is mounted has taken the task.
  abbrev pub IsKeptThere : Task → World fl.F → World fl.F → Type 0
  IsKeptThere t w w' =
      (d : Disk fl.F) × (url : String) × (before : Host fl.F) × (after : Host fl.F) × (lookup
          t.dst_disk disks
        ≡ some d)
      × (d.mounted_node_id ≢ "")
      × (d.mounted_node_id ≢ self_id)
      × (peer_url d.mounted_node_id ≡ some url)
      × (lookup url w.peers ≡ some before)
      × (lookup url w'.peers ≡ some after)
      × IsTaken (peer_now url) t before.store after.store

  ours :
      (t : Task) (d : Disk fl.F)
      → lookup t.dst_disk disks ≡ some d
      → (d.mounted_node_id == "" || d.mounted_node_id == self_id) ≡ true
      → IsOurs t
  ours t d e here = elim (Bool-cases (d.mounted_node_id == "")) [
    | inl nowhere ↦ inr (d, e, inl ((eq_iff d.mounted_node_id "").0 nowhere))
    | inr n ↦ inr (d, e, inr ((eq_iff d.mounted_node_id self_id).0 (rw n at here)))
  ]

  apart :
      (d : Disk fl.F)
      → (d.mounted_node_id == "" || d.mounted_node_id == self_id) ≡ false
      → (d.mounted_node_id ≢ "") × (d.mounted_node_id ≢ self_id)
  apart d there = ground (arith, eq_iff d.mounted_node_id "", eq_iff d.mounted_node_id self_id)

  kept_here :
      (t : Task) (w : World fl.F)
      → (local (submit_task now t) w).0 ≡ ok tt
      → IsTaken now t w.host.store (local (submit_task now t) w).1.host.store
  kept_here t w h =
      subst (IsTaken now t w.host.store) (sym (local_store (submit_task now t) w))
        (submit_task_ok now t w.host.store (local_ok (submit_task now t) w tt h))

  sent_ok :
      (t : Task) (d : Disk fl.F) (w : World fl.F) (o : Option String)
      → lookup t.dst_disk disks ≡ some d
      → (d.mounted_node_id ≢ "") × (d.mounted_node_id ≢ self_id)
      → peer_url d.mounted_node_id ≡ o
      → (sent fl sign_payload peer_secret peer_now client now peer_url self_id disks
          d.mounted_node_id o t w).0
        ≡ ok tt
      → IsKeptThere t w
          (sent fl sign_payload peer_secret peer_now client now peer_url self_id disks
            d.mounted_node_id o t w).1
  sent_ok t d w none known other e h = cc
  sent_ok t d w (some url) known other e h =
      let (before, after, there, kept, taken) = post_task_ok (peer_now url) url t w h in
      (d, url, before, after, known, other.0, other.1, e, there, kept, taken)

  abbrev owner : Option (Disk fl.F) → String
  owner = owner_of fl sign_payload peer_secret peer_now client now peer_url self_id disks

  -- What the submission does, given what is known of the target disk.
  abbrev routed : Option (Disk fl.F) → Task → World fl.F → Result Failure Unit × World fl.F
  routed o t =
      if owner o == "" || owner o == self_id
      then local (submit_task now t)
      else sent fl sign_payload peer_secret peer_now client now peer_url self_id disks (owner o)
          (peer_url (owner o)) t

  routed_lands :
      (t : Task) (w : World fl.F) (o : Option (Disk fl.F))
      → lookup t.dst_disk disks ≡ o
      → (routed o t w).0 ≡ ok tt
      → IsKeptHere t w (routed o t w).1 ⊎ IsKeptThere t w (routed o t w).1
  routed_lands t w none e h = inl (inl e, kept_here t w h)
  routed_lands t w (some d) e h =
      elim (Bool-cases (d.mounted_node_id == "" || d.mounted_node_id == self_id)) [
        | inl here ↦ rw here (inl (ours t d e here, kept_here t w (rw here at h)))
        | inr there ↦ rw there (
            inr (sent_ok t d w (peer_url d.mounted_node_id) e (apart d there) refl (rw there at h)))
      ]

  -- A task whose submission succeeds is in the table of the node that has to carry it out: of the node
  -- itself, if the target disk is not known, or mounted there or nowhere, and otherwise of the peer on which
  -- it is mounted. It is queued there, or as it was if its id was known.
  pub submit_routed_lands :
      (t : Task) (w : World fl.F)
      → (submit t w).0 ≡ ok tt
      → IsKeptHere t w (submit t w).1 ⊎ IsKeptThere t w (submit t w).1
  unfolding submit_routed
  submit_routed_lands t w h = routed_lands t w (lookup t.dst_disk disks) refl h
