-- ===== src/Engine/Mcp/Filtering.antt =====
-- app/engine/mcp/filtering.py: which tools a server may offer, under which names, and how much of
-- a result is passed on.
pub mod Names
pub mod Results
pub mod Unique
use agentstrata.Prelude.{
  Bool, List, Option, [], false, if◌then◌else◌, leb, length, ltb, none, not, some, suc, take, true,
  zero, ℕ, ◌&&◌, ◌++◌, ◌+◌, ◌-◌, ◌==◌, ◌∷◌,
}
use agentstrata.Text.{Text, decimal, elem, utf8_length, utf8_size}

-- The loop of `apply_tool_filter`; a missing list is an empty one.
unfoldable pub apply_tool_filter : List Text → List Text → List Text → List Text
unfolding elem
apply_tool_filter [] allow deny = []
apply_tool_filter (name ∷ names) allow deny =
    let rest = apply_tool_filter names allow deny in
    if elem name deny
    then rest
    else if not (length allow == 0) && not (elem name allow)
    then rest
    else name ∷ rest

-- f"{server_name}_{raw}"
unfoldable pub qualified : Text → Text → Text
qualified server_name raw = server_name ++ 95 ∷ raw

-- f"{server_name}_{raw}_{n}"
unfoldable pub numbered : Text → Text → ℕ → Text
unfolding qualified decimal
numbered server_name raw n = qualified server_name raw ++ 95 ∷ decimal n

-- `while True`, on fuel: the first numbered name that is not used
unfoldable pub next_free : ℕ → Text → Text → ℕ → List Text → Option Text
unfolding numbered elem
next_free zero server_name raw n used = none
next_free (suc fuel) server_name raw n used =
    let rest = next_free fuel server_name raw (n + 1) used in
    if elem (numbered server_name raw n) used then rest else some (numbered server_name raw n)

-- The name of one tool. One more try than there are used names is enough.
unfoldable pub rename_one : Text → Text → List Text → Option Text
unfolding qualified next_free elem
rename_one server_name raw used =
    if not (elem raw used)
    then some raw
    else if not (elem (qualified server_name raw) used)
    then some (qualified server_name raw)
    else next_free (length used + 1) server_name raw 2 used

-- The names of a server's tools, and all used names after them.
unfoldable pub rename_all : Text → List Text → List Text → Option (List Text × List Text)
unfolding rename_one
rename_all server_name [] used = some ([], used)
rename_all server_name (raw ∷ raws) used = elim (rename_one server_name raw used) [
  | none ↦ none
  | some name ↦ elim (rename_all server_name raws (name ∷ used)) [
    | none ↦ none
    | some (names, used') ↦ some (name ∷ names, used')
  ]
]

unfoldable pub rename_collision_safe : List Text → Text → Option (List Text)
unfolding rename_all
rename_collision_safe raw_names server_name = elim (rename_all server_name raw_names []) [
  | none ↦ none
  | some (names, used) ↦ some names
]

-- "\n[truncated by runtime]"
abbrev pub suffix : Text
suffix =
    10 ∷ 91 ∷ 116 ∷ 114 ∷ 117 ∷ 110 ∷ 99 ∷ 97 ∷ 116 ∷ 101 ∷ 100 ∷ 32 ∷ 98 ∷ 121 ∷ 32 ∷ 114 ∷ 117
    ∷ 110 ∷ 116 ∷ 105 ∷ 109 ∷ 101 ∷ 93 ∷ []

-- The loop of `truncate_codepoint_safe`.
unfoldable pub fitting : Text → ℕ → ℕ → Text
unfolding utf8_size
fitting [] used budget = []
fitting (ch ∷ text) used budget =
    let rest = fitting text (used + utf8_size ch) budget in
    if ltb budget (used + utf8_size ch) then [] else ch ∷ rest

unfoldable pub truncate_codepoint_safe : Text → ℕ → Text × Bool
unfolding fitting utf8_length
truncate_codepoint_safe text max_bytes =
    if leb (utf8_length text) max_bytes
    then (text, false)
    else if leb max_bytes (utf8_length suffix)
    then (take max_bytes suffix, true)
    else (fitting text 0 (max_bytes - utf8_length suffix) ++ suffix, true)

unfoldable pub enforce_max_result_bytes : Text → ℕ → Text
unfolding truncate_codepoint_safe
enforce_max_result_bytes result max_bytes = (truncate_codepoint_safe result max_bytes).0
