-- ===== src/Storage/Model.antt =====
-- app/storage/model.py: the stored records, and the keys of the backend's maps.
-- A `datetime` is a number of microseconds; usage counts are natural numbers.
use Prim.Native.Char.{code}
use Prim.Native.String.{[] as nil, ◌∷◌ as cons}
use agentstrata.Json.{Fields, Json}
use agentstrata.Prelude.{
  Bool, List, Option, String, String_discrete, [], false, leb, str_eq, suc, true, zero, ℕ, ◌&&◌,
  ◌==◌, ◌||◌, ◌∷◌,
}
use agentstrata.Prelude.Dict.{Dict}

-- (agent_name, principal_id, session_id), and (agent_name, principal_id, approval_id).
abbrev pub SessionKey : Type 0
SessionKey = String × String × String

abbrev pub owner : SessionKey → String × String
owner key = (key.0, key.1)

-- A session's key with a run id, or with an idempotency key.
abbrev pub RunKey : Type 0
RunKey = SessionKey × String

unfoldable pub key_discrete : Discrete SessionKey
unfolding String_discrete
key_discrete = hlevel String_discrete

unfoldable pub run_key_discrete : Discrete RunKey
unfolding String_discrete
run_key_discrete = hlevel String_discrete

-- [A-Za-z0-9_-]
unfoldable pub session_id_char : ℕ → Bool
session_id_char c =
    leb b'A' c && leb c b'Z'
    || leb b'a' c && leb c b'z'
    || leb b'0' c && leb c b'9'
    || c == b'_'
    || c == b'-'

-- The rest of a match of `^[A-Za-z0-9_-]{1,128}$` once one character is read, with `room` more
-- characters allowed. `$` also matches before a final newline.
unfoldable pub session_id_rest : ℕ → List ℕ → Bool
session_id_rest room [] = true
session_id_rest zero (c ∷ []) = c == 10
session_id_rest zero (c ∷ d ∷ cs) = false
session_id_rest (suc room) (c ∷ []) = session_id_char c || c == 10
session_id_rest (suc room) (c ∷ d ∷ cs) = session_id_char c && session_id_rest room (d ∷ cs)

unfoldable pub session_id_match : List ℕ → Bool
unfolding session_id_char session_id_rest
session_id_match [] = false
session_id_match (c ∷ cs) = session_id_char c && session_id_rest 127 cs

-- The code points of a text.
unfoldable pub codes : String → List ℕ
codes nil = []
codes (cons c s) = code c ∷ codes s

unfoldable pub validate_session_id : String → Bool
unfolding session_id_match codes
validate_session_id session_id = session_id_match (codes session_id)

pub record SessionRecord : Type 0 where
  pub key : SessionKey
  pub revision : ℕ
  pub events : List Json
  pub usage : Dict String ℕ
  pub history_truncated : Bool
  pub created_at : ℕ
  pub updated_at : ℕ

pub record RunRecord : Type 0 where
  pub key : RunKey
  pub status : String
  pub iteration_count : ℕ
  pub input : Fields
  pub outcome : Fields
  pub usage : Dict String ℕ
  pub created_at : ℕ
  pub updated_at : ℕ

unfoldable pub terminal : RunRecord → Bool
terminal r = str_eq r.status "succeeded" || str_eq r.status "failed" || str_eq r.status "cancelled"

pub record IdempotencyRecord : Type 0 where
  pub key_tuple : RunKey
  pub status : String
  pub outcome : Fields
  pub created_at : ℕ
  pub expires_at : Option ℕ

pub record Fence : Type 0 where
  pub token : String
  pub fencing_number : ℕ
  pub expires_at : Option ℕ

-- `checkpoint` holds the full arguments of the tool call.
pub record ApprovalRecord : Type 0 where
  pub agent_name : String
  pub principal_id : String
  pub session_id : String
  pub run_id : String
  pub approval_id : String
  pub config_generation : ℕ
  pub server_name : String
  pub raw_tool_name : String
  pub final_tool_name : String
  pub args_hash : String
  pub args_preview : String
  pub checkpoint : Fields
  pub status : String
  pub timeout_seconds : ℕ
  pub reason : Option String
  pub created_at : ℕ
  pub expires_at : ℕ
  pub decided_at : Option ℕ
  pub revision : ℕ

unfoldable pub pending : ApprovalRecord → Bool
pending r = str_eq r.status "pending"

unfoldable pub decided : ApprovalRecord → Bool
decided r = str_eq r.status "approved" || str_eq r.status "denied"
