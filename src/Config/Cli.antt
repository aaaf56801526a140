-- ===== src/Config/Cli.antt =====
-- app/config/resolver.py: `parse_cli_values`.
use agentstrata.Config.Scalars.{
  Checked, SchemaField, TextOps, bad, good, same_text, set_path, usage_error, ◌>>=◌,
}
use agentstrata.Json.{Fields, end}
use agentstrata.Prelude.{List, Option, String, [], if◌then◌else◌, none, some, ◌&&◌, ◌++◌, ◌==◌, ◌∷◌}
use agentstrata.Storage.Model.{codes}
use agentstrata.Text.{Text, elem}

-- ".".join(segments)
unfoldable pub dotted : List String → Text
unfolding codes
dotted [] = []
dotted (s ∷ []) = codes s
dotted (s ∷ next ∷ segments) = codes s ++ b'.' ∷ dotted (next ∷ segments)

-- body.split("=", 1), if there is an equals sign
unfoldable pub split_equals : Text → Option (Text × Text)
split_equals [] = none
split_equals (c ∷ text) =
    let rest = split_equals text in
    if c == b'='
    then some ([], text)
    else elim rest [ none ↦ none | some (path, value) ↦ some (c ∷ path, value) ]

-- arg[2:] of an argument that starts with "--", split
unfoldable pub flag_of : Text → Option (Text × Text)
unfolding split_equals
flag_of (c ∷ d ∷ body) = if c == b'-' && d == b'-' then split_equals body else none
flag_of _ = none

-- The flags that the command line layer handles.
unfoldable pub bootstrap_flags : List Text
unfolding codes
bootstrap_flags =
    codes "profile"
    ∷ codes "config-dir"
    ∷ codes "validate"
    ∷ codes "dump-config"
    ∷ codes "version"
    ∷ codes "help"
    ∷ []

-- bindings[path]
unfoldable pub binding_of : Text → List SchemaField → Option SchemaField
unfolding same_text dotted
binding_of path [] = none
binding_of path (f ∷ schema) =
    if f.bindable && same_text (dotted f.segments) path then some f else binding_of path schema

-- What the loop of `parse_cli_values` keeps: the document, the paths seen, and the paths that it
-- warned of.
abbrev pub CliState : Type 0
CliState = Fields × List Text × List Text

-- A flag that has a value.
unfoldable pub set_flag : TextOps → List SchemaField → Text → Text → CliState → Checked CliState
unfolding elem bootstrap_flags binding_of set_path
set_flag ops schema path value (doc, seen, repeated) =
    if elem path bootstrap_flags
    then good (doc, seen, repeated)
    else elim (binding_of path schema) [
      | none ↦ bad usage_error
      | some f ↦
          let warned = if elem path seen then repeated ++ path ∷ [] else repeated in
          set_path ops f value doc >>= λ changed. good (changed, path ∷ seen, warned)
    ]

unfoldable pub parse_args : TextOps → List SchemaField → List Text → CliState → Checked CliState
unfolding flag_of set_flag
parse_args ops schema [] state = good state
parse_args ops schema (arg ∷ argv) state =
    elim (flag_of arg) [
      | none ↦ good state
      | some (path, value) ↦ set_flag ops schema path value state
    ]
    >>= parse_args ops schema argv

-- The document, with the paths that were given more than once.
unfoldable pub parse_cli_values :
    TextOps → List SchemaField → List Text → Checked (Fields × List Text)
unfolding parse_args
parse_cli_values ops schema argv =
    parse_args ops schema argv (end, [], []) >>= λ state. good (state.0, state.2)
