-- ===== src/Config/Finalize.antt =====
-- app/config/resolver.py: `_finalize`, and the tiers 5 to 7 of `resolve`.
use agentstrata.Config.Cli.{parse_cli_values}
use agentstrata.Config.Documents.{Provenance, Provenances, Resolution, set_field}
use agentstrata.Config.Environment.{bind_env}
use agentstrata.Config.Scalars.{
  Checked, SchemaField, TextOps, bad, child_of, config_error, good, same_text, ◌>>=◌,
}
use agentstrata.Config.Tiers.{apply_tier}
use agentstrata.Json.{Fields, Items, Json, arr, cons, end, nil, obj, str}
use agentstrata.Prelude.{
  Bool, List, Option, String, [], false, get_or, if◌then◌else◌, map, none, some, str_eq, suc, ℕ,
  ◌++◌, ◌||◌, ◌∷◌,
}
use agentstrata.Prelude.Dict.{Dict, get, put}
use agentstrata.Storage.Model.{codes}
use agentstrata.Storage.Parsing.{bool_of, get_field}
use agentstrata.Text.{Text, decimal, starts_with, text_discrete}

-- f"tools.mcpServers[{i}].transport"
unfoldable pub transport_path : ℕ → Text
unfolding decimal codes
transport_path i = codes "tools.mcpServers[" ++ decimal i ++ codes "].transport"

-- The provenance of a transport that is rewritten.
unfoldable pub normalized_source : Option Provenance → Provenance
unfolding codes
normalized_source none = record {
  tier = 7;
  reset = false;
  source = codes "normalized http -> streamable-http";
}
normalized_source (some old) = record {
  tier = old.tier;
  reset = false;
  source = old.source ++ codes "; normalized http -> streamable-http";
}

-- server.get("transport") == "http", of a dictionary
unfoldable pub has_http_transport : Json → Bool
unfolding get_field
has_http_transport (obj server) = elim (get_field "transport" server) [
  | some (str s) ↦ str_eq s "http"
  | _ ↦ false
]
has_http_transport _ = false

unfoldable pub with_streamable : Json → Json
unfolding set_field
with_streamable (obj server) = obj (set_field "transport" (str "streamable-http") server)
with_streamable v = v

-- The loop over the servers, from the index `i`: the servers, the provenance, and the indices
-- that are warned of.
unfoldable pub normalize_servers : ℕ → Items → Provenances → Items × Provenances × List ℕ
unfolding has_http_transport with_streamable transport_path normalized_source text_discrete
normalize_servers i nil prov = (nil, prov, [])
normalize_servers i (cons server servers) prov =
    if has_http_transport server
    then (let old = get text_discrete (transport_path i) prov in
        let prov' = put text_discrete (transport_path i) (normalized_source old) prov in
        let (others, last, warned) = normalize_servers (suc i) servers prov' in
        (cons (with_streamable server) others, last, i ∷ warned))
    else (let (others, last, warned) = normalize_servers (suc i) servers prov in
        (cons server others, last, warned))

-- The part of `_finalize` on tools.mcpServers.
unfoldable pub normalize_tools : Resolution → Resolution × List ℕ
unfolding get_field set_field normalize_servers
normalize_tools r = elim (get_field "tools" r.merged) [
  | some (obj tools) ↦ elim (get_field "mcpServers" tools) [
    | some (arr servers) ↦
        let (changed, prov, warned) = normalize_servers 0 servers r.provenance in
        (
          record {
            merged = set_field "tools" (obj (set_field "mcpServers" (arr changed) tools)) r.merged;
            provenance = prov;
          },
          warned,
        )
    | _ ↦ (r, [])
  ]
  | _ ↦ (r, [])
]

-- isinstance(name, str) and name
unfoldable pub name_of : Fields → Option String
unfolding get_field
name_of merged = elim (get_field "name" merged) [
  | some (str s) ↦ if str_eq s "" then none else some s
  | _ ↦ none
]

-- Whether `doc.get(key)` counts as true.
unfoldable pub has_value : String → Fields → Bool
unfolding get_field bool_of
has_value key doc = elim (get_field key doc) [ none ↦ false | some v ↦ bool_of v ]

unfoldable pub derived : Provenance
unfolding codes
derived = record { tier = 0; reset = false; source = codes "derived from top-level name" }

-- The part on k8s.name.
unfoldable pub default_k8s_name : Resolution → Resolution
unfolding get_field set_field name_of has_value derived text_discrete codes
default_k8s_name r =
    let k8s = get_or (get_field "k8s" r.merged) (obj end) in
    let present = record r { merged = set_field "k8s" k8s r.merged } in
    elim k8s [
      | obj doc ↦ elim (name_of r.merged) [
        | none ↦ present
        | some name ↦ if has_value "name" doc then present else record {
          merged = set_field "k8s" (obj (set_field "name" (str name) doc)) r.merged;
          provenance = put text_discrete (codes "k8s.name") derived r.provenance;
        }
      ]
      | _ ↦ present
    ]

-- The otel dictionary under a dictionary of observability.
unfoldable pub default_service_name : Fields → Resolution → Resolution
unfolding get_field set_field name_of has_value derived text_discrete codes
default_service_name obs r =
    let otel = get_or (get_field "otel" obs) (obj end) in
    let under = λ (v : Json). set_field "observability" (obj (set_field "otel" v obs)) r.merged in
    let present = record r { merged = under otel } in
    elim otel [
      | obj doc ↦ elim (name_of r.merged) [
        | none ↦ present
        | some name ↦ if has_value "serviceName" doc then present else record {
          merged = under (obj (set_field "serviceName" (str name) doc));
          provenance =
              put text_discrete (codes "observability.otel.serviceName") derived r.provenance;
        }
      ]
      | _ ↦ present
    ]

-- _finalize, with the indices of the servers that it warns of
unfoldable pub finalize : Resolution → Checked (Resolution × List ℕ)
unfolding normalize_tools default_k8s_name default_service_name get_field child_of
finalize r =
    let (normalized, warned) = normalize_tools r in
    let named = default_k8s_name normalized in
    child_of (get_field "observability" named.merged) >>= λ obs.
    good (default_service_name obs named, warned)

-- leaf == path or leaf.startswith(path + ".")
unfoldable pub is_below : Text → Text → Bool
unfolding same_text starts_with
is_below path leaf = same_text leaf path || starts_with leaf (path ++ b'.' ∷ [])

-- The loop over `var_to_path` that names the variable of each leaf.
unfoldable pub name_variables : Dict Text Text → Provenances → Provenances
unfolding is_below codes
name_variables [] prov = prov
name_variables ((var, path) ∷ variables) prov = name_variables variables (
    map
      (λ (e : Text × Provenance).
        if is_below path e.0
        then (e.0, record { tier = 5; reset = e.1.reset; source = codes "env:" ++ var })
        else e)
      prov)

-- resolve, from what tiers 1 to 4 add up to; `inline` is the parsed AGENT_APPLICATION_JSON
unfoldable pub resolve_rest :
    TextOps
    → List SchemaField
    → List (Text × Text)
    → List Text
    → Option (Option Fields)
    → Resolution
    → Checked (Resolution × List ℕ)
unfolding bind_env apply_tier name_variables parse_cli_values finalize codes
resolve_rest ops schema env argv inline r = do
  bound ← bind_env ops schema env
  let applied = apply_tier 5 (codes "env") [] bound.0 r
  let named : Resolution = record {
    merged = applied.merged;
    provenance = name_variables bound.1 applied.provenance;
  }
  with_inline ← elim inline [
    | none ↦ good named
    | some none ↦ bad config_error
    | some (some doc) ↦ good (apply_tier 6 (codes "AGENT_APPLICATION_JSON") [] doc named)
  ]
  cli ← parse_cli_values ops schema argv
  finalize (apply_tier 7 (codes "cli") [] cli.0 with_inline)
