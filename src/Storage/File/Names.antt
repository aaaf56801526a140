-- ===== src/Storage/File/Names.antt =====
-- app/storage/file_backend.py: the names of the files, and the patterns that find them.
-- An id with a path separator in it, or with a character that `glob` reads as a pattern, is not
-- modelled where the code does not refuse it.
use agentstrata.Prelude.{
  Bool, String, [], any, drop, if◌then◌else◌, length, not, str_eq, ◌&&◌, ◌++◌, ◌==◌, ◌||◌, ◌∷◌,
}
use agentstrata.Storage.Model.{codes, session_id_char}
use agentstrata.Text.{Text, ends_with, occurs, starts_with}

-- _safe_component: whether it returns
unfoldable pub safe_component : String → Bool
unfolding codes occurs any
safe_component value = not (
    str_eq value ""
    || str_eq value "."
    || str_eq value ".."
    || occurs (codes "/") (codes value)
    || any (λ c. c == 92 || c == 0) (codes value))

-- f"{session_id}.json"
unfoldable pub session_file : String → Text
unfolding codes
session_file session_id = codes session_id ++ codes ".json"

-- f"{session_id}.run-{run_id}.json"
unfoldable pub run_file : String → String → Text
unfolding codes
run_file session_id run_id = codes session_id ++ codes ".run-" ++ codes run_id ++ codes ".json"

-- f"{session_id}.idem-{key}.json"
unfoldable pub idem_file : String → String → Text
unfolding codes
idem_file session_id key = codes session_id ++ codes ".idem-" ++ codes key ++ codes ".json"

-- re.sub(r"[^0-9a-zA-Z_-]", "_", approval_id)
unfoldable pub safe_approval : Text → Text
unfolding session_id_char
safe_approval [] = []
safe_approval (c ∷ cs) = (if session_id_char c then c else b'_') ∷ safe_approval cs

-- The name that `_approval_path` builds.
unfoldable pub approval_file : String → Text
unfolding codes safe_approval
approval_file approval_id = codes "approval-" ++ safe_approval (codes approval_id) ++ codes ".json"

-- Whether a name matches the pattern f"{prefix}*.json".
unfoldable pub glob : Text → Text → Bool
unfolding starts_with ends_with codes
glob prefix name = starts_with name prefix && ends_with (drop (length prefix) name) (codes ".json")
