-- ===== src/Engine/Mcp/Manager.antt =====
-- app/engine/mcp/manager.py: the handles of the configured servers, and what the manager does with
-- them. Delays are numbers of microseconds. The toolset of a server is google-adk's: here, whether
-- there is one. Its tools come in as an argument, and so does the jitter of a failed connection.
pub mod Names
pub mod Lookup
pub mod Surface
use agentstrata.Engine.Mcp.Filtering.{apply_tool_filter, rename_all}
use agentstrata.Prelude.{
  Bool, List, Option, String, [], false, get_or, if◌then◌else◌, ite, keep_if, length, ltb, map, min,
  none, not, some, take, true, ℕ, ◌&&◌, ◌*◌, ◌++◌, ◌+◌, ◌-◌, ◌==◌, ◌||◌, ◌∷◌,
}
use agentstrata.Text.{Text, elem, text_discrete}

pub data ServerState : Type 0 where
  disconnected connecting connected degraded : ServerState

-- A tool object: the name that its server knows it by, and its current name.
pub record Tool : Type 0 where
  pub served : Text
  pub name : Text

pub record ServerHandle : Type 0 where
  pub name : Text
  pub transport : String
  pub required : Bool
  pub tool_filter_allow : List Text
  pub tool_filter_deny : List Text
  pub max_transport_message_bytes : ℕ
  pub max_tools : ℕ
  pub toolset : Bool
  pub state : ServerState
  pub tools : List Tool
  pub raw_names : List Text
  pub filtered_names : List Text
  pub final_names : List Text
  pub backoff_seconds : ℕ
  pub last_error : Option String
  pub ref_count : ℕ

unfoldable pub is_connected : ServerHandle → Bool
is_connected h = elim h.state [
  | disconnected ↦ false
  | connecting ↦ false
  | connected ↦ true
  | degraded ↦ false
]

-- The filter and the cut of `_connect`.
unfoldable pub offered : ServerHandle → List Text → List Text
unfolding apply_tool_filter
offered h raw_names =
    let filtered = apply_tool_filter raw_names h.tool_filter_allow h.tool_filter_deny in
    if ltb h.max_tools (length filtered) then take h.max_tools filtered else filtered

-- The handle after `_connect` got the tools of the server, before it attaches them.
unfoldable pub connect_succeeded : List Text → ServerHandle → ServerHandle
unfolding offered
connect_succeeded raw_names h = record h {
  tools = map (λ raw. record { served = raw; name = raw }) raw_names;
  raw_names = raw_names;
  filtered_names = offered h raw_names;
  toolset = true;
  state = connected;
  last_error = none;
  backoff_seconds = 1000000;
}

-- The handle after `_connect` failed.
unfoldable pub connect_failed : String → ℕ → ServerHandle → ServerHandle
connect_failed error jitter h = record h {
  state = disconnected;
  last_error = some error;
  backoff_seconds = min (h.backoff_seconds * 2) 60000000 + jitter;
}

-- _recompute_finals, with the names that are used so far
unfoldable pub recompute_from : List Text → List ServerHandle → Option (List ServerHandle)
unfolding rename_all
recompute_from used [] = some []
recompute_from used (h ∷ handles) = elim (rename_all h.name h.filtered_names used) [
  | none ↦ none
  | some (finals, used') ↦ elim (recompute_from used' handles) [
    | none ↦ none
    | some rest ↦ some (record h { final_names = finals } ∷ rest)
  ]
]

unfoldable pub recompute_finals : List ServerHandle → Option (List ServerHandle)
unfolding recompute_from
recompute_finals handles = recompute_from [] handles

-- zip(…, strict=False)
unfoldable pub zip : List Text → List Text → List (Text × Text)
zip [] finals = []
zip (raw ∷ raws) [] = []
zip (raw ∷ raws) (final ∷ finals) = (raw, final) ∷ zip raws finals

-- The inner loop of `lookup_tool`: the first raw name that is paired with the final one.
unfoldable pub raw_of : Text → List (Text × Text) → Option Text
unfolding text_discrete
raw_of final_name [] = none
raw_of final_name ((raw, final) ∷ pairs) =
    ite (text_discrete final final_name) (some raw) (raw_of final_name pairs)

unfoldable pub lookup_tool : Text → List ServerHandle → Option (Text × Text)
unfolding raw_of zip
lookup_tool final_name [] = none
lookup_tool final_name (h ∷ handles) = elim (raw_of final_name (zip h.raw_names h.final_names)) [
  | some raw ↦ some (h.name, raw)
  | none ↦ lookup_tool final_name handles
]

-- dict(zip(raw_names, final_names)).get(name): of equal raw names the last one counts
unfoldable pub final_of : Text → List (Text × Text) → Option Text
unfolding text_discrete
final_of name [] = none
final_of name ((raw, final) ∷ pairs) = elim (final_of name pairs) [
  | some later ↦ some later
  | none ↦ ite (text_discrete raw name) (some final) none
]

-- The renaming of `_attach_tools`, for the tools of one server.
unfoldable pub rename_tools : ServerHandle → ServerHandle
unfolding final_of zip
rename_tools h = record h {
  tools =
      map {B = Tool}
        (λ t. record t { name = get_or (final_of t.name (zip h.raw_names h.final_names)) t.name })
        h.tools;
}

-- [t for t in other.tools if t.name in other.final_names]
unfoldable pub attached : ServerHandle → List Tool
unfolding elem keep_if
attached h = keep_if (λ t. elem t.name h.final_names) h.tools

-- allowed is None or n in allowed
unfoldable pub may_see : Option (List Text) → Text → Bool
unfolding elem
may_see none name = true
may_see (some allowed) name = elem name allowed

-- The tools of an agent that may see the allowed servers, after a rebuild.
unfoldable pub agent_tools : Option (List Text) → List ServerHandle → List Tool
unfolding may_see attached
agent_tools allowed [] = []
agent_tools allowed (h ∷ handles) =
    if may_see allowed h.name
    then attached h ++ agent_tools allowed handles
    else agent_tools allowed handles

-- _attach_tools, called for the handle h: the handles after it. The agents then get `agent_tools`
-- of these.
unfoldable pub attach_tools : ServerHandle → List ServerHandle → Option (List ServerHandle)
unfolding recompute_finals rename_tools
attach_tools h handles =
    if not h.toolset || length h.tools == 0 then some handles else elim (recompute_finals handles) [
      | none ↦ none
      | some handles' ↦ some (map rename_tools handles')
    ]

-- acquire, of a handle that exists
unfoldable pub acquire : ServerHandle → ServerHandle
acquire h = record h { ref_count = h.ref_count + 1 }

-- _detach_tools, of the handle; the agents then get `agent_tools` of the handles
unfoldable pub detach_tools : ServerHandle → ServerHandle
detach_tools h = record h { tools = [] }

-- The handle after a failed probe of `_reconcile_loop`.
unfoldable pub probe_failed : ℕ → ServerHandle → ServerHandle
unfolding detach_tools
probe_failed jitter h = detach_tools (record h {
  state = disconnected;
  last_error = some "liveness probe failed";
  backoff_seconds = min (h.backoff_seconds * 2) 60000000 + jitter;
})

-- One server of `configure`.
unfoldable pub configure : Text → String → Bool → List Text → List Text → ℕ → ℕ → ServerHandle
configure name transport required allow deny max_transport_message_bytes max_tools = record {
  name = name;
  transport = transport;
  required = required;
  tool_filter_allow = allow;
  tool_filter_deny = deny;
  max_transport_message_bytes = max_transport_message_bytes;
  max_tools = max_tools;
  toolset = false;
  state = disconnected;
  tools = [];
  raw_names = [];
  filtered_names = [];
  final_names = [];
  backoff_seconds = 1000000;
  last_error = none;
  ref_count = 0;
}

-- _close_toolset
unfoldable pub close_toolset : ServerHandle → ServerHandle
unfolding detach_tools
close_toolset h =
    if h.toolset then record (detach_tools h) { toolset = false; state = disconnected } else h

-- _release
unfoldable pub release : ServerHandle → ServerHandle
unfolding close_toolset
release h =
    let h' = record h { ref_count = h.ref_count - 1 } in
    if h.ref_count == 0 then h else if h'.ref_count == 0 then close_toolset h' else h'

unfoldable pub readiness : List ServerHandle → Bool
unfolding is_connected
readiness [] = true
readiness (h ∷ handles) = (not h.required || is_connected h) && readiness handles
