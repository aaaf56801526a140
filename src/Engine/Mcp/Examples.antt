-- ===== src/Engine/Mcp/Examples.antt =====
-- app/engine/mcp: tests on small inputs, and the theorems at concrete inputs.
use agentstrata.Engine.Mcp.Filtering.{numbered, qualified, rename_collision_safe}
use agentstrata.Engine.Mcp.Filtering.Names.{IsUnique}
use agentstrata.Engine.Mcp.Filtering.Unique.{rename_collision_safe-IsUnique}
use agentstrata.Engine.Mcp.Manager.{ServerHandle, connected, lookup_tool, recompute_finals, zip}
use agentstrata.Engine.Mcp.Manager.Lookup.{lookup_tool-final}
use agentstrata.Engine.Mcp.Manager.Names.{AreRenamed, all_finals, recompute_finals-IsUnique}
use agentstrata.Prelude.{List, [], arith, length, none, refl, some, true, ◌++◌, ◌∷◌, ◌≡◌, ◌≢◌}
use agentstrata.Text.{Text, elem}

-- "hé€"
abbrev hello : Text
hello = 104 ∷ 233 ∷ 8364 ∷ []

-- "read" and "drop"
abbrev read : Text
read = 114 ∷ 101 ∷ 97 ∷ 100 ∷ []

abbrev drop_it : Text
drop_it = 100 ∷ 114 ∷ 111 ∷ 112 ∷ []

abbrev fs : Text
fs = 102 ∷ 115 ∷ []

abbrev server : ServerHandle
server = record {
  name = fs;
  transport = "stdio";
  required = true;
  tool_filter_allow = [];
  tool_filter_deny = drop_it ∷ [];
  max_transport_message_bytes = 1048576;
  max_tools = 128;
  toolset = true;
  state = connected;
  tools = [];
  raw_names = read ∷ [];
  filtered_names = read ∷ [];
  final_names = read ∷ [];
  backoff_seconds = 1000000;
  last_error = none;
  ref_count = 1;
}

drop_it-ne-read : drop_it ≢ read
drop_it-ne-read e = ground arith

test_rename :
    rename_collision_safe (read ∷ read ∷ read ∷ []) fs
    ≡ some (read ∷ qualified fs read ∷ numbered fs read 2 ∷ [])
unfolding rename_collision_safe numbered qualified
test_rename = refl

rename_collision_safe-IsUnique_example :
    (names : List Text) × (rename_collision_safe (read ∷ read ∷ []) fs ≡ some names)
    × (length names ≡ length (read ∷ read ∷ []))
    × IsUnique names
rename_collision_safe-IsUnique_example = rename_collision_safe-IsUnique (read ∷ read ∷ []) fs

lookup_tool-final_example : lookup_tool read ([] ++ server ∷ []) ≡ some (server.name, read)
unfolding elem zip
lookup_tool-final_example = lookup_tool-final [] [] server [] [] read read ((refl, tt)) refl refl

recompute_finals-IsUnique_example :
    (out : List ServerHandle) × (recompute_finals (server ∷ server ∷ []) ≡ some out)
    × AreRenamed (server ∷ server ∷ []) out
    × IsUnique (all_finals out)
recompute_finals-IsUnique_example = recompute_finals-IsUnique (server ∷ server ∷ [])
