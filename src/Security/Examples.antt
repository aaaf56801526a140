-- ===== src/Security/Examples.antt =====
-- app/security: tests, and the theorems at concrete values.
use agentstrata.Json.{Json, end, field, obj, str}
use agentstrata.Prelude.{
  All, List, String, [], any, false, if◌then◌else◌, inl, inr, keep_if, leb, map, none, refl, some,
  true, ◌&&◌, ◌+◌, ◌∷◌, ◌≡◌,
}
use agentstrata.Security.Audit.{
  Addresses, audit, audit_events, audit_line, bad_scheme, base_url_scheme, client_of, escape_lines,
  hops_of, host_of, http_scheme, in_any_network, is_loopback, join_rest, jwks_not_https,
  jwks_problems, kv, or_first, parse_forwarded_for, peer_trusted, rightmost_untrusted, safe,
  server_problems, split_commas, url_host, validate_egress_targets,
}
use agentstrata.Security.Audit.Lines.{IsOneLine, audit-IsOneLine, is_break}
use agentstrata.Security.Audit.Proxies.{IsClient, parse_forwarded_for-IsClient}
use agentstrata.Security.Redact.{
  is_sensitive_key, mask_for, mask_value, normalize_key, sensitive_suffixes,
}
use agentstrata.Security.Redact.Masking.{mask_value-hides}
use agentstrata.Storage.Model.{codes}
use agentstrata.Text.{Text, elem, starts_with, text_discrete}

-- `str.lower` on ASCII
abbrev ascii_lower : Text → Text
ascii_lower text = map (λ c. if leb 65 c && leb c 90 then c + 32 else c) text

abbrev config : String → Json
config secret =
    obj (field "server" (obj (field "X-Api_Key" (str secret) end)) (field "name" (str "demo") end))

test_sensitive : is_sensitive_key ascii_lower "X-Api_Key.File" ≡ true
unfolding is_sensitive_key normalize_key codes sensitive_suffixes
test_sensitive = refl

test_plain : is_sensitive_key ascii_lower "tokens" ≡ false
unfolding is_sensitive_key normalize_key codes sensitive_suffixes
test_plain = refl

test_mask : mask_value ascii_lower (mask_for false) (config "one") ≡ config "***"
unfolding mask_value mask_for is_sensitive_key sensitive_suffixes codes normalize_key
test_mask = refl

mask_value-hides_example :
    (mask_value ascii_lower "***" (config "one") ≡ mask_value ascii_lower "***" (config "two"))
    × (mask_value ascii_lower "***" (mask_value ascii_lower "***" (config "one"))
        ≡ mask_value ascii_lower "***" (config "one"))
unfolding is_sensitive_key sensitive_suffixes codes normalize_key
mask_value-hides_example =
    mask_value-hides ascii_lower "***" (config "one") (config "two")
      (refl, inr (refl, inl refl, tt), (refl, inr refl, tt))

-- An event with a field whose value has a line break.
abbrev forged : List (Text × Text)
forged = (codes "sub", b'a' ∷ 10 ∷ codes "audit_event=x") ∷ []

test_audit :
    audit (codes "auth_failure") forged
    ≡ codes "audit_event=auth_failure sub=a\\naudit_event=x" ∷ []
unfolding audit audit_events audit_line kv join_rest safe escape_lines codes elem text_discrete
test_audit = refl

audit-IsOneLine_example : All IsOneLine (audit (codes "shutdown_draining") forged)
unfolding codes any is_break
audit-IsOneLine_example = audit-IsOneLine (codes "shutdown_draining") forged refl (refl, tt)

-- Addresses as texts: an address starts with a digit, a network is a prefix.
abbrev prefixes : Addresses
unfolding starts_with codes
prefixes = record {
  Address = Text;
  ip_address = λ text. if starts_with text (codes "1") then some text else none;
  is_loopback_address = λ a. starts_with a (codes "127.");
  in_network = λ a network. some (starts_with a network);
}

parse_forwarded_for-IsClient_example :
    (peer_trusted prefixes (codes "10.1") (codes "10." ∷ []) ≡ true)
    × IsClient prefixes
        (codes "10." ∷ [])
        (hops_of (λ t. t) (codes "15.6,17.8,10.2"))
        (codes "17.8")
unfolding codes parse_forwarded_for peer_trusted in_any_network client_of or_first
    rightmost_untrusted hops_of split_commas keep_if text_discrete starts_with
parse_forwarded_for-IsClient_example =
    parse_forwarded_for-IsClient prefixes (λ t. t) (codes "15.6,17.8,10.2") (codes "10." ∷ [])
      (codes "10.1") (codes "17.8") refl

test_egress :
    validate_egress_targets prefixes
      (codes "ftp://a")
      ((codes "m", codes "http://b") ∷ [])
      true
      (codes "http://c:80/jwks")
    ≡ base_url_scheme (codes "ftp://a") ∷ jwks_not_https ∷ []
unfolding validate_egress_targets bad_scheme http_scheme server_problems jwks_problems is_loopback
    url_host host_of starts_with elem text_discrete codes
test_egress = refl
