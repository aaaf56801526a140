-- ===== src/Config/Environment.antt =====
-- app/config/resolver.py: the binding of environment variables. The closest paths that a warning
-- names are left out.
use agentstrata.Config.Cli.{binding_of, dotted}
use agentstrata.Config.Scalars.{
  Checked, SchemaField, TextOps, ambiguous_env, bad, good, same_text, set_path, ◌>>=◌,
}
use agentstrata.Json.{Fields, end}
use agentstrata.Prelude.{
  Bool, List, String, [], drop, false, if◌then◌else◌, keep_if, leb, map, none, not, some, true,
  ◌&&◌, ◌++◌, ◌==◌, ◌||◌, ◌∷◌,
}
use agentstrata.Prelude.Dict.{Dict, put}
use agentstrata.Storage.Model.{codes}
use agentstrata.Text.{Text, elem, occurs, starts_with, text_discrete}

-- RESERVED_ENV
unfoldable pub reserved_env : List Text
unfolding codes
reserved_env =
    codes "AGENT_PROFILE"
    ∷ codes "AGENT_CONFIG_DIR"
    ∷ codes "AGENT_APPLICATION_JSON"
    ∷ codes "AGENT_BUNDLED_DIR"
    ∷ []

-- ENV_ALIASES, with the segments of the target paths
unfoldable pub env_aliases : List (Text × List String)
unfolding codes
env_aliases =
    (codes "MODEL", "llm" ∷ "model" ∷ [])
    ∷ (codes "INSTRUCTION", "engine" ∷ "systemInstruction" ∷ [])
    ∷ (codes "API_KEY", "llm" ∷ "apiKeyEnv" ∷ [])
    ∷ (codes "PROVIDER", "llm" ∷ "provider" ∷ [])
    ∷ []

-- The three warnings of `bind_env` about a variable that matches no path.
pub data EnvWarning : Type 0 where
  sensitive_variable indexed_variable ignored_variable : Text → EnvWarning

-- _UNDERSCORE.sub("", key)
unfoldable pub without_underscores : Text → Text
without_underscores [] = []
without_underscores (c ∷ text) =
    let rest = without_underscores text in if c == b'_' then rest else c ∷ rest

-- `\d+($|_)` at the start of a text, with at least one digit seen
unfoldable pub ends_index : Text → Bool
ends_index [] = true
ends_index (c ∷ text) = let rest = ends_index text in c == b'_' || leb b'0' c && leb c b'9' && rest

unfoldable pub starts_index : Text → Bool
unfolding ends_index
starts_index [] = false
starts_index (c ∷ text) = leb b'0' c && leb c b'9' && ends_index text

-- _looks_like_list_index
unfoldable pub looks_like_list_index : Text → Bool
unfolding starts_index
looks_like_list_index [] = false
looks_like_list_index (c ∷ text) =
    let rest = looks_like_list_index text in c == b'_' && starts_index text || rest

-- What `bind_env` keeps: the document, the path of each variable, and the warnings.
abbrev pub EnvState : Type 0
EnvState = Fields × Dict Text Text × List EnvWarning

-- An entry of the index: the stripped name, the variable, and the field.
abbrev pub IndexEntry : Type 0
IndexEntry = Text × Text × SchemaField

module _ (ops : TextOps) where
  -- _strip
  unfoldable pub strip_key : Text → Text
  unfolding without_underscores
  strip_key key = ops.lower (without_underscores key)

  -- The underscores before the upper case characters of a segment, after its first one.
  unfoldable pub underscored : Text → Text
  underscored [] = []
  underscored (c ∷ text) =
      let rest = underscored text in if ops.is_upper c then b'_' ∷ c ∷ rest else c ∷ rest

  unfoldable pub alias_segment : Text → Text
  unfolding underscored
  alias_segment [] = []
  alias_segment (c ∷ segment) = ops.upper (c ∷ underscored segment)

  -- "_".join(parts)
  unfoldable pub alias_parts : List String → Text
  unfolding alias_segment codes
  alias_parts [] = []
  alias_parts (s ∷ []) = alias_segment (codes s)
  alias_parts (s ∷ next ∷ segments) =
      alias_segment (codes s) ++ b'_' ∷ alias_parts (next ∷ segments)

  -- camel_to_env_alias
  unfoldable pub camel_to_env_alias : List String → Text
  unfolding alias_parts codes
  camel_to_env_alias segments = codes "AGENT_" ++ alias_parts segments

  unfoldable pub schema_entries : List SchemaField → List IndexEntry
  unfolding strip_key camel_to_env_alias
  schema_entries [] = []
  schema_entries (f ∷ schema) =
      let rest = schema_entries schema in
      let alias = camel_to_env_alias f.segments in
      if f.bindable then (strip_key (drop 6 alias), alias, f) ∷ rest else rest

  -- by_path[target]; each target is a field of the schema
  unfoldable pub alias_entries : List SchemaField → List (Text × List String) → List IndexEntry
  unfolding strip_key binding_of dotted codes
  alias_entries schema [] = []
  alias_entries schema ((short, target) ∷ aliases) =
      let rest = alias_entries schema aliases in
      elim (binding_of (dotted target) schema) [
        | none ↦ rest
        | some f ↦ (strip_key short, codes "AGENT_" ++ short, f) ∷ rest
      ]

  -- _build_binding_index, in the order in which its lists grow
  unfoldable pub build_binding_index : List SchemaField → List IndexEntry
  unfolding schema_entries alias_entries env_aliases
  build_binding_index schema = schema_entries schema ++ alias_entries schema env_aliases

  -- index.get(stripped, [])
  unfoldable pub candidates_of : List IndexEntry → Text → List SchemaField
  unfolding keep_if same_text
  candidates_of index stripped =
      map (λ e. e.2) (keep_if (λ (e : IndexEntry). same_text e.0 stripped) index)

  -- A variable that is looked at: AGENT_…, and not reserved.
  unfoldable pub is_agent_variable : Text → Bool
  unfolding starts_with elem reserved_env codes
  is_agent_variable var =
      starts_with (ops.upper var) (codes "AGENT_")
      && not (elem (ops.upper var) (map ops.upper reserved_env))

  -- var.upper() == camel_to_env_alias(path).upper()
  unfoldable pub is_canonical : Text → SchemaField → Bool
  unfolding same_text camel_to_env_alias
  is_canonical var f = same_text (ops.upper var) (ops.upper (camel_to_env_alias f.segments))

  -- _canonically_bound_paths
  unfoldable pub canonically_bound : List IndexEntry → List (Text × Text) → List Text
  unfolding is_agent_variable candidates_of strip_key is_canonical keep_if dotted
  canonically_bound index [] = []
  canonically_bound index ((var, value) ∷ env) =
      let rest = canonically_bound index env in
      if is_agent_variable var
      then map (λ (f : SchemaField). dotted f.segments)
          (keep_if (is_canonical var) (candidates_of index (strip_key (drop 6 var))))
        ++ rest
      else rest

  -- re.search(r"KEY|TOKEN|SECRET|PASSWORD", var, re.IGNORECASE)
  unfoldable pub is_sensitive_variable : Text → Bool
  unfolding occurs codes
  is_sensitive_variable var =
      occurs (codes "KEY") (ops.upper var)
      || occurs (codes "TOKEN") (ops.upper var)
      || occurs (codes "SECRET") (ops.upper var)
      || occurs (codes "PASSWORD") (ops.upper var)

  unfoldable pub env_warning : Text → EnvWarning
  unfolding is_sensitive_variable looks_like_list_index
  env_warning var =
      if is_sensitive_variable var
      then sensitive_variable var
      else if looks_like_list_index (drop 6 var)
      then indexed_variable var
      else ignored_variable var

  -- A variable with its candidates.
  unfoldable pub bind_candidates :
      List Text → Text → Text → List SchemaField → EnvState → Checked EnvState
  unfolding env_warning elem is_canonical set_path dotted text_discrete
  bind_candidates canonical var value [] (doc, paths, warnings) =
      good (doc, paths, warnings ++ env_warning var ∷ [])
  bind_candidates canonical var value (f ∷ g ∷ others) state = bad ambiguous_env
  bind_candidates canonical var value (f ∷ []) (doc, paths, warnings) =
      if elem (dotted f.segments) canonical && not (is_canonical var f)
      then good (doc, paths, warnings)
      else set_path ops f value doc >>= λ changed.
          good (changed, put text_discrete var (dotted f.segments) paths, warnings)

  unfoldable pub bind_variables :
      List IndexEntry → List Text → List (Text × Text) → EnvState → Checked EnvState
  unfolding is_agent_variable bind_candidates candidates_of strip_key
  bind_variables index canonical [] state = good state
  bind_variables index canonical ((var, value) ∷ env) state =
      (if is_agent_variable var
        then bind_candidates canonical var value (candidates_of index (strip_key (drop 6 var)))
            state
        else good state)
      >>= bind_variables index canonical env

  -- bind_env
  unfoldable pub bind_env : List SchemaField → List (Text × Text) → Checked EnvState
  unfolding build_binding_index canonically_bound bind_variables
  bind_env schema env =
      let index = build_binding_index schema in
      bind_variables index (canonically_bound index env) env (end, [], [])
