-- ===== src/Api/Access.antt =====
-- internal/clusterapi/clusterapi.go: `SignHeaders` of a client, and `auth`, through which every request of
-- a peer passes. `sign_request` is as in Crypto. A nonce that cannot be made, and a body that cannot be
-- read, are `none`.
use mathlib.Core.Option.{some-injective}
use immich_go_server.Prelude.{
  ℕ, ◌<◌, ◌^◌, ℤ, pos, String, ◌≡◌, refl, subst, ◌∙◌, Bool, true, false, List, Option, none, some,
  eq_refl, contains, include, contains-include, parse_int, format_int, parse_int-decimal, Result,
  ok, err,
}
use immich_go_server.Crypto.{Request, is_stale, verify_request}

-- The four headers; the timestamp is a text.
pub record Headers : Type 0 where
  pub node_id : String
  pub timestamp : List ℕ
  pub nonce : String
  pub sig : String

-- A handler on a state `S`, behind the nonces that have been seen.
abbrev pub Guarded : Type 0 → Type 0 → Type 0
Guarded S A = List String × S → Result ℕ A × (List String × S)

module _ (sign_request : String → Request → String) where
  abbrev pub request : String → String → ℤ → String → String → Request
  request method path timestamp nonce body = record {
    method = method;
    path = path;
    timestamp = timestamp;
    nonce = nonce;
    body = body;
  }

  abbrev signed_headers : String → String → String → String → String → ℤ → String → Headers
  signed_headers node_id secret method path body now nonce = record {
    node_id = node_id;
    timestamp = format_int now;
    nonce = nonce;
    sig = sign_request secret (request method path now nonce body);
  }

  unfoldable pub sign_headers :
      String → String → String → String → String → ℤ → Option String → Option Headers
  sign_headers node_id secret method path body now none = none
  sign_headers node_id secret method path body now (some nonce) =
      some (signed_headers node_id secret method path body now nonce)

  module _ {S A : Type 0} (secret : String) (now max_skew : ℤ) (next : S → A × S) where
    abbrev passed : Bool × List String → S → Result ℕ A × (List String × S)
    passed (false, seen) s = (err 401, (seen, s))
    passed (true, seen) s = let (a, s') = next s in (ok a, (seen, s'))

    abbrev dated : String → String → String → Headers → Option ℤ → Guarded S A
    dated method path body h none (seen, s) = (err 401, (seen, s))
    dated method path body h (some timestamp) (seen, s) =
        passed
          (verify_request sign_request secret (request method path timestamp h.nonce body) h.sig now
            max_skew seen)
          s

    pub auth : String → String → Option String → Headers → Guarded S A
    auth method path none h (seen, s) = (err 400, (seen, s))
    auth method path (some body) h (seen, s) =
        dated method path body h (parse_int h.timestamp) (seen, s)

    -- The request is let through, and its headers are refused afterwards.
    abbrev pub IsLetInOnce : String → String → String → Headers → List String → S → Type 0
    IsLetInOnce method path body h seen s =
        (auth method path (some body) h (seen, s)
          ≡ (ok (next s).0, (include h.nonce seen, (next s).1)))
        × ((method' path' body' : String) (s' : S)
            → auth method' path' (some body') h (include h.nonce seen, s')
              ≡ (err 401, (include h.nonce seen, s')))

    signed-IsLetInOnce :
        (node_id method path body nonce : String) (t : ℕ) (seen : List String) (s : S)
        → t < 2 ^ 63
        → is_stale (pos t) now max_skew ≡ false
        → contains nonce seen ≡ false
        → IsLetInOnce method path body
            (signed_headers node_id secret method path body (pos t) nonce)
            seen
            s
    unfolding auth verify_request
    signed-IsLetInOnce node_id method path body nonce t seen s fits fresh new =
        let again : contains nonce (include nonce seen) ≡ true =
          contains-include nonce nonce seen ∙ rw (eq_refl) refl in
        (
          rw (parse_int-decimal t fits, fresh, new, eq_refl) refl,
          λ method' path' body' s'. rw (parse_int-decimal t fits, fresh, again) refl,
        )

    -- A request that is signed with the secret of the node, at a time from 1970 on that an int64 holds and
    -- within the window around the time of arrival, under a nonce that is new, reaches the handler; its
    -- headers are refused afterwards, with whatever path, method and body, and then change nothing.
    pub auth-sign_headers :
        (node_id method path body nonce : String) (t : ℕ) (h : Headers) (seen : List String) (s : S)
        → t < 2 ^ 63
        → is_stale (pos t) now max_skew ≡ false
        → contains nonce seen ≡ false
        → sign_headers node_id secret method path body (pos t) (some nonce) ≡ some h
        → IsLetInOnce method path body h seen s
    unfolding sign_headers
    auth-sign_headers node_id method path body nonce t h seen s fits fresh new signed =
        subst (λ g. IsLetInOnce method path body g seen s) (some-injective _ _ signed)
          (signed-IsLetInOnce node_id method path body nonce t seen s fits fresh new)
