-- ===== src/Discovery.antt =====
-- internal/discovery/discovery.go: the registry of peers, and the listener that enters the beacons that
-- it hears. UDP, JSON and HMAC are code outside of the repository: a packet that cannot be decoded is
-- `none`, and `sign` stands for the signature that `SignBeacon` computes.
pub mod Heard
pub mod Tests
use immich_go_server.Prelude.{
  ℕ, ◌+◌, ℤ, String, Bool, true, false, not, ◌||◌, List, [], ◌∷◌, Option, none, some, if◌then◌else◌,
  ltb, ltb_ℤ, sub64, ◌==◌, Assoc, lookup, insert, contains, include, length, Result, ok, err,
}

pub record Beacon : Type 0 where
  pub node_id : String
  pub addr : String
  pub timestamp : ℤ
  pub nonce : String
  pub sig : String

pub record Peer : Type 0 where
  pub node_id : String
  pub addr : String
  pub last_seen : ℤ

-- The registry is the map `peers`.
abbrev pub Registry : Type 0
Registry = Assoc Peer

abbrev upsert_over : Option Peer → String → String → ℤ → Registry → Bool × Registry
upsert_over none node_id addr now peers =
    (true, insert node_id (record { node_id = node_id; addr = addr; last_seen = now }) peers)
upsert_over (some old) node_id addr now peers =
    if old.addr == addr
    then (false, insert node_id (record old { last_seen = now }) peers)
    else (true, insert node_id (record { node_id = node_id; addr = addr; last_seen = now }) peers)

-- Whether the peer is new or has another address.
pub upsert : String → String → ℤ → Registry → Bool × Registry
upsert node_id addr now peers = upsert_over (lookup node_id peers) node_id addr now peers

-- How many peers are removed.
pub prune : ℤ → Registry → ℕ × Registry
prune cutoff [] = (0, [])
prune cutoff ((id, p) ∷ rest) =
    let (n, kept) = prune cutoff rest in
    if ltb_ℤ p.last_seen cutoff then (n + 1, kept) else (n, (id, p) ∷ kept)

pub record Listener : Type 0 where
  pub secret : String
  pub max_skew : ℤ
  pub reg : Registry
  pub seen : List String
  pub seen_cap : ℕ

module _ (sign : String → Beacon → String) where
  pub verify_beacon : String → Beacon → ℤ → ℤ → Bool
  verify_beacon secret b now max_skew =
      if ltb_ℤ max_skew (sub64 now b.timestamp) || ltb_ℤ max_skew (sub64 b.timestamp now)
      then false
      else sign secret b == b.sig

  abbrev remember : String → Listener → Listener
  remember nonce l =
      let seen = include nonce l.seen in
      record l { seen = if ltb l.seen_cap (length seen) then [] else seen }

  abbrev enter : Beacon → ℤ → Listener → Listener
  enter b now l = record l { reg = (upsert b.node_id b.addr now l.reg).1 }

  pub handle_packet : Option Beacon → ℤ → Listener → Result Unit Bool × Listener
  handle_packet none now l = (err tt, l)
  handle_packet (some b) now l =
      if not (verify_beacon l.secret b now l.max_skew)
      then (ok false, l)
      else if contains b.nonce l.seen
      then (ok false, l)
      else (ok true, enter b now (remember b.nonce l))
