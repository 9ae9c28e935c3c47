-- ===== src/Discovery/Heard.antt =====
-- A peer that has been heard is known until it is pruned.
use immich_go_server.Prelude.{
  ℤ, String, ◌≡◌, refl, true, false, ◌⊎◌, inl, inr, [], ◌∷◌, Option, none, some, arith, ltb_ℤ,
  sub64, ◌↔◌, ◌≤ℤ◌, ◌==◌, eq_iff, lookup, lookup-insert_self, contains, Bool-cases, ok, sym, ap,
  ◌∙◌,
}
use mathlib.Core.Bool.{false≢true}
use mathlib.Core.Option.{some-injective}
use immich_go_server.Discovery.{
  Beacon, Peer, Registry, Listener, upsert, upsert_over, prune, verify_beacon, handle_packet,
}

-- The node is known under the address, and was seen at the time.
abbrev pub IsKnown : String → String → ℤ → Registry → Type 0
IsKnown node_id addr now peers =
    (p : Peer) × (lookup node_id peers ≡ some p) × (p.addr ≡ addr) × (p.last_seen ≡ now)

upsert_over-IsKnown :
    (o : Option Peer) (id addr : String) (now : ℤ) (peers : Registry)
    → IsKnown id addr now (upsert_over o id addr now peers).1
upsert_over-IsKnown none id addr now peers = (_, lookup-insert_self id _ peers, refl, refl)
upsert_over-IsKnown (some old) id addr now peers = elim (Bool-cases (old.addr == addr)) [
  | inl same ↦ rw same (_, lookup-insert_self id _ peers, (eq_iff old.addr addr).0 same, refl)
  | inr moved ↦ rw moved (_, lookup-insert_self id _ peers, refl, refl)
]

upsert-IsKnown :
    (id addr : String) (now : ℤ) (peers : Registry)
    → IsKnown id addr now (upsert id addr now peers).1
unfolding upsert
upsert-IsKnown id addr now peers = upsert_over-IsKnown (lookup id peers) id addr now peers

-- A peer that is not too old is still found.
lookup-prune :
    (cutoff : ℤ) (id : String) (p : Peer) (peers : Registry)
    → lookup id peers ≡ some p
    → ltb_ℤ p.last_seen cutoff ≡ false
    → lookup id (prune cutoff peers).1 ≡ some p
unfolding prune lookup
lookup-prune cutoff id p [] h young = h
lookup-prune cutoff id p ((key, q) ∷ rest) h young = elim (Bool-cases (key == id)) [
  | inl here ↦
      let same : q ≡ p = some-injective _ _ (rw here at h) in
      let kept : ltb_ℤ q.last_seen cutoff ≡ false =
        ap (λ r. ltb_ℤ r.last_seen cutoff) same ∙ young in
      rw kept (rw here (ap some same))
  | inr other ↦
      let later : lookup id (prune cutoff rest).1 ≡ some p =
        lookup-prune cutoff id p rest (rw other at h) young in
      elim (Bool-cases (ltb_ℤ q.last_seen cutoff)) [
        | inl old ↦ rw old later
        | inr kept ↦ rw kept (rw other later)
      ]
]

IsKnown-prune :
    (id addr : String) (now cutoff : ℤ) (peers : Registry)
    → cutoff ≤ℤ now
    → IsKnown id addr now peers
    → IsKnown id addr now (prune cutoff peers).1
IsKnown-prune id addr now cutoff peers le (p, found, there, seen) =
    (p, lookup-prune cutoff id p peers found (ground (arith, seen)), there, seen)

module _ (sign : String → Beacon → String) where
  -- The time of the beacon is within the allowed skew of `now`, either way, its signature is the one that
  -- the secret of the listener gives, and its nonce is new.
  abbrev pub IsNews : Beacon → ℤ → Listener → Type 0
  IsNews b now l =
      (sub64 now b.timestamp ≤ℤ l.max_skew)
      × (sub64 b.timestamp now ≤ℤ l.max_skew)
      × (sign l.secret b ≡ b.sig)
      × (contains b.nonce l.seen ≡ false)

  verify_beacon_iff :
      (secret : String) (b : Beacon) (now max_skew : ℤ)
      → (verify_beacon sign secret b now max_skew ≡ true) ↔ (
          (sub64 now b.timestamp ≤ℤ max_skew)
          × (sub64 b.timestamp now ≤ℤ max_skew)
          × (sign secret b ≡ b.sig))
  unfolding verify_beacon
  verify_beacon_iff secret b now max_skew = ground (arith, eq_iff (sign secret b) b.sig)

  -- A beacon that can be decoded is accepted exactly when its time is within the allowed skew of `now`, either
  -- way, its signature is the one that the secret gives, and its nonce is new. If it is accepted, its node is known under its address, as seen now, and stays so when
  -- peers that were last seen before some time up to now are pruned. Otherwise nothing changes.
  pub handle_packet-IsKnown :
      (b : Beacon) (now cutoff : ℤ) (l : Listener)
      → cutoff ≤ℤ now
      → (((handle_packet sign (some b) now l).0 ≡ ok true)
          × IsNews b now l
          × IsKnown b.node_id b.addr now (prune cutoff (handle_packet sign (some b) now l).1.reg).1)
        ⊎ (((handle_packet sign (some b) now l).0 ≡ ok false)
            × ¬ IsNews b now l
            × ((handle_packet sign (some b) now l).1 ≡ l))
  unfolding handle_packet
  handle_packet-IsKnown b now cutoff l le =
      elim (Bool-cases (verify_beacon sign l.secret b now l.max_skew)) [
        | inl right ↦
            let ok_all = (verify_beacon_iff l.secret b now l.max_skew).0 right in
            elim (Bool-cases (contains b.nonce l.seen)) [
              | inl known ↦ rw (right, known) (inr (refl, (λ news. false≢true (sym news.3)), refl))
              | inr new ↦
                  rw (right, new)
                    (inl (
                      refl,
                      (ok_all.0, ok_all.1, ok_all.2, refl),
                      IsKnown-prune b.node_id b.addr now cutoff _ le
                          (upsert-IsKnown b.node_id b.addr now l.reg),
                    ))
            ]
        | inr wrong ↦ rw wrong (
            inr (
              refl,
              (λ (early, late, right, _). false≢true (
                  sym wrong
                  ∙ (verify_beacon_iff l.secret b now l.max_skew).1 (early, late, right))),
              refl,
            ))
      ]
