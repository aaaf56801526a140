-- ===== src/Security/Audit.antt =====
-- app/security/audit.py: audit lines, the check of the egress targets, and the client address
-- behind trusted proxies. `str(value)` is taken before; `ipaddress` is an argument.
pub mod Lines
pub mod Proxies
use agentstrata.Prelude.{
  Bool, List, Option, [], drop, false, if◌then◌else◌, ite, keep_if, map, none, not, some, take,
  true, ◌&&◌, ◌++◌, ◌==◌, ◌||◌, ◌∷◌,
}
use agentstrata.Storage.Model.{codes}
use agentstrata.Text.{Text, elem, starts_with, text_discrete}

-- AUDIT_EVENTS
unfoldable pub audit_events : List Text
unfolding codes
audit_events =
    codes "auth_failure"
    ∷ codes "rate_limited"
    ∷ codes "foreign_session_access"
    ∷ codes "capability_rejected"
    ∷ codes "config_applied"
    ∷ codes "config_rejected"
    ∷ codes "auth_warn_none_bind"
    ∷ codes "idempotency_conflict"
    ∷ []

-- text.replace("\n", "\\n").replace("\r", "\\r")
unfoldable pub escape_lines : Text → Text
escape_lines [] = []
escape_lines (c ∷ text) =
    let rest = escape_lines text in
    if c == 10 then 92 ∷ b'n' ∷ rest else if c == 13 then 92 ∷ b'r' ∷ rest else c ∷ rest

-- _safe
unfoldable pub safe : Text → Text
unfolding escape_lines
safe text = take 200 (escape_lines text)

-- What `" ".join` puts after a part: nothing after the last one.
unfoldable pub join_rest : List (Text × Text) → Text → Text
join_rest [] text = []
join_rest (next ∷ fields) text = b' ' ∷ text

-- _kv
unfoldable pub kv : List (Text × Text) → Text
unfolding safe join_rest
kv [] = []
kv ((k, v) ∷ fields) = let rest = kv fields in k ++ b'=' ∷ safe v ++ join_rest fields rest

-- The line of an event.
unfoldable pub audit_line : Text → List (Text × Text) → Text
unfolding kv codes
audit_line event fields = codes "audit_event=" ++ event ++ b' ' ∷ kv fields

-- audit: the lines that it logs
unfoldable pub audit : Text → List (Text × Text) → List Text
unfolding elem audit_events audit_line kv codes
audit event fields =
    if elem event audit_events
    then audit_line event fields ∷ []
    else (codes "audit_unknown_event event=" ++ event ++ codes " fields=" ++ kv fields)
      ∷ audit_line (codes "audit_unknown") fields
      ∷ []

-- _http_scheme
unfoldable pub http_scheme : Text → Bool
unfolding starts_with codes
http_scheme url = starts_with url (codes "http://") || starts_with url (codes "https://")

-- [^:/]+ at the start of a text
unfoldable pub host_of : Text → Text
host_of [] = []
host_of (c ∷ text) = let rest = host_of text in if c == b':' || c == b'/' then [] else c ∷ rest

-- The host that `https?://([^:/]+)` matches.
unfoldable pub url_host : Text → Text
unfolding starts_with host_of codes
url_host url =
    if starts_with url (codes "https://")
    then host_of (drop 8 url)
    else if starts_with url (codes "http://")
    then host_of (drop 7 url)
    else []

-- What the module asks `ipaddress`: an address, a loopback address, an address in a network; a
-- text that is no address or no network is a ValueError, which is none.
pub record Addresses : Type 1 where
  pub Address : Type 0
  pub ip_address : Text → Option Address
  pub is_loopback_address : Address → Bool
  pub in_network : Address → Text → Option Bool

-- hops[0] if hops else None
unfoldable pub first_hop : List Text → Option Text
first_hop [] = none
first_hop (hop ∷ hops) = some hop

-- The hop that the loop returns, or the first one.
unfoldable pub or_first : Option Text → List Text → Option Text
unfolding first_hop
or_first (some hop) hops = some hop
or_first none hops = first_hop hops

module _ (addresses : Addresses) where
  unfoldable pub is_loopback : Text → Bool
  unfolding url_host elem codes
  is_loopback url = elim (url_host url) [
    | [] ↦ false
    | c ∷ cs ↦
        if elem (c ∷ cs) (codes "localhost" ∷ codes "127.0.0.1" ∷ codes "::1" ∷ [])
        then true
        else elim (addresses.ip_address (c ∷ cs)) [
          | none ↦ false
          | some a ↦ addresses.is_loopback_address a
        ]
  ]

  unfoldable pub in_any_network : addresses.Address → List Text → Bool
  in_any_network a [] = false
  in_any_network a (cidr ∷ cidrs) =
      let rest = in_any_network a cidrs in
      elim (addresses.in_network a cidr) [ none ↦ rest | some inside ↦ inside || rest ]

  -- _peer_trusted
  unfoldable pub peer_trusted : Text → List Text → Bool
  unfolding in_any_network
  peer_trusted peer cidrs = elim (addresses.ip_address peer) [
    | none ↦ false
    | some a ↦ in_any_network a cidrs
  ]

  -- for hop in reversed(hops): if not trusted: return hop
  unfoldable pub rightmost_untrusted : List Text → List Text → Option Text
  unfolding peer_trusted
  rightmost_untrusted cidrs [] = none
  rightmost_untrusted cidrs (hop ∷ hops) =
      let right = rightmost_untrusted cidrs hops in
      elim right [ some h ↦ some h | none ↦ if peer_trusted hop cidrs then none else some hop ]

  -- parse_forwarded_for, from the stripped hops of a header that is not empty
  unfoldable pub client_of : List Text → List Text → Option Text
  unfolding rightmost_untrusted or_first
  client_of hops cidrs = or_first (rightmost_untrusted cidrs hops) hops

-- header.split(",")
unfoldable pub split_commas : Text → List Text
split_commas [] = [] ∷ []
split_commas (c ∷ text) =
    let parts = split_commas text in
    if c == b',' then [] ∷ parts else elim parts [ [] ↦ [] | part ∷ rest ↦ (c ∷ part) ∷ rest ]

-- [hop.strip() for hop in header.split(",") if hop.strip()]
unfoldable pub hops_of : (Text → Text) → Text → List Text
unfolding split_commas keep_if text_discrete
hops_of strip_spaces header =
    keep_if (λ hop. ite (text_discrete hop []) false true) (map strip_spaces (split_commas header))

unfoldable pub parse_forwarded_for :
    Addresses → (Text → Text) → Text → List Text → Text → Option Text
unfolding peer_trusted hops_of client_of
parse_forwarded_for addresses strip_spaces [] cidrs direct_peer = none
parse_forwarded_for addresses strip_spaces (c ∷ header) [] direct_peer = none
parse_forwarded_for addresses strip_spaces (c ∷ header) (cidr ∷ cidrs) direct_peer =
    if peer_trusted addresses direct_peer (cidr ∷ cidrs)
    then client_of addresses (hops_of strip_spaces (c ∷ header)) (cidr ∷ cidrs)
    else none

-- The problems that `validate_egress_targets` lists, with the URL, or the server and its URL.
pub data EgressProblem : Type 0 where
  base_url_scheme : Text → EgressProblem
  server_url_scheme : Text → Text → EgressProblem
  jwks_not_https : EgressProblem

-- `if url and not _http_scheme(url)`
unfoldable pub bad_scheme : Text → Bool
unfolding http_scheme
bad_scheme [] = false
bad_scheme (c ∷ url) = not (http_scheme (c ∷ url))

unfoldable pub server_problems : List (Text × Text) → List EgressProblem
unfolding bad_scheme
server_problems [] = []
server_problems ((name, url) ∷ servers) =
    let rest = server_problems servers in
    if bad_scheme url then server_url_scheme name url ∷ rest else rest

-- The check of the JWKS url, which is made in the mode `jwt`.
unfoldable pub jwks_problems : Addresses → Bool → Text → List EgressProblem
unfolding starts_with is_loopback codes
jwks_problems addresses jwt_mode [] = []
jwks_problems addresses jwt_mode (c ∷ url) =
    if jwt_mode
      && not (starts_with (c ∷ url) (codes "https://"))
      && not (is_loopback addresses (c ∷ url))
    then jwks_not_https ∷ []
    else []

-- validate_egress_targets; an absent URL is the empty text
unfoldable pub validate_egress_targets :
    Addresses → Text → List (Text × Text) → Bool → Text → List EgressProblem
unfolding bad_scheme server_problems jwks_problems
validate_egress_targets addresses base_url servers jwt_mode jwks_url =
    (if bad_scheme base_url then base_url_scheme base_url ∷ [] else [])
    ++ server_problems servers
    ++ jwks_problems addresses jwt_mode jwks_url
