-- ===== src/Storage/File/Examples.antt =====
-- app/storage/file_backend.py: concrete requests on the file backend, on a host whose times are
-- marks, whose digests are the principals, and that lists a directory in the order of creation.
use Prim.Native.Char.{char}
use Prim.Native.String.{[] as nil, ◌∷◌ as cons}
use agentstrata.Json.{end, str}
use agentstrata.Prelude.{
  Bool-cases, List, Option, String, String_discrete, [], ap, eq_iff, false, inl, inr, map, none,
  refl, some, str_eq, suc, true, zero, ℕ, ◌∷◌, ◌≡◌,
}
use agentstrata.Prelude.Dict.{get}
use agentstrata.Storage.Codec.{session_from_json, session_to_json}
use agentstrata.Storage.Codec.RoundTrip.{session_from_json-session_to_json}
use agentstrata.Storage.Codec.Sorting.{insert_count, key_lt, sort_usage, sorted_session}
use agentstrata.Storage.Contract.{StorageSettings}
use agentstrata.Storage.File.Names.{safe_component}
use agentstrata.Storage.File.Refinement.{IsUsable, Site}
use agentstrata.Storage.File.Refinement.Replies.{file_replies-memory_replies}
use agentstrata.Storage.File.Requests.{
  Request, acquire_request, create_request, fetch_request, file_replies, memory_replies,
  mutate_request, sorted_reply,
}
use agentstrata.Storage.File.State.{Host, init, initialize}
use agentstrata.Storage.Memory.Approvals.{ApprovalRequest}
use agentstrata.Storage.Memory.State.{init as memory_init}
use agentstrata.Storage.Model.{SessionKey, SessionRecord, codes, validate_session_id}
use agentstrata.Storage.Parsing.{IsoFormat, parsed}
use agentstrata.Text.{text_lt}

abbrev marks : ℕ → String
marks zero = nil
marks (suc n) = cons (char 49 tt) (marks n)

abbrev size : String → ℕ
size nil = 0
size (cons c s) = suc (size s)

abbrev marked_time : String → Option ℕ
marked_time nil = none
marked_time (cons c s) = some (size s)

size-marks : (n : ℕ) → size (marks n) ≡ n
size-marks zero = refl
size-marks (suc n) = ap suc (size-marks n)

marks_not_empty : (n : ℕ) → str_eq (marks (suc n)) "" ≡ false
marks_not_empty n = elim (Bool-cases (str_eq (marks (suc n)) "")) [
  | inl e ↦ absurd (cc ((eq_iff (marks (suc n)) "").0 e))
  | inr e ↦ e
]

abbrev iso : IsoFormat
iso = record {
  isoformat = λ t. marks (suc t);
  fromisoformat = marked_time;
  fromisoformat_isoformat = λ t. ap some (size-marks t);
  isoformat_not_empty = marks_not_empty;
}

abbrev host : Host
host = record { iso = iso; digest = λ p. p; listing = λ names. names }

abbrev site : Site
site = record {
  host = host;
  IsServed = λ p. safe_component p ≡ true;
  digest_safe = λ p h. h;
  digest_injective = λ p q h k e. e;
}

abbrev config : StorageSettings
config = record {
  session_ttl_seconds = 3600;
  run_ttl_seconds = 600;
  idempotency_ttl_seconds = 600;
  max_sessions = 10;
  max_runs_per_session = 2;
  max_idempotency_records_per_session = 2;
}

abbrev key : SessionKey
key = ("agent", "ada", "s-1")

abbrev requests : List Request
requests =
    create_request "agent" "ada" (some "s-1") "" (some (str "hi" ∷ [])) 5
    ∷ mutate_request key 1 (some (str "more" ∷ [])) (some (("tokens", 3) ∷ ("calls", 1) ∷ [])) none
        6
    ∷ mutate_request key 1 none none none 7
    ∷ acquire_request key "t" 10 7
    ∷ fetch_request key 8
    ∷ []

key-IsUsable : IsUsable site key
unfolding safe_component validate_session_id
key-IsUsable = (refl, refl, refl)

file_replies-memory_replies_example :
    map sorted_reply (file_replies host requests (initialize (init config)).1)
    ≡ map sorted_reply (memory_replies requests (memory_init config))
file_replies-memory_replies_example = file_replies-memory_replies site config requests (
  (key-IsUsable.0, key-IsUsable.1),
  (key-IsUsable, (key-IsUsable, (key-IsUsable, (key-IsUsable, tt)))),
)

abbrev saved : SessionRecord
saved = record {
  key = key;
  revision = 2;
  events = str "hi" ∷ [];
  usage = ("tokens", 3) ∷ ("calls", 1) ∷ [];
  history_truncated = false;
  created_at = 1;
  updated_at = 2;
}

session_from_json-session_to_json_example :
    (session_from_json iso 9 (session_to_json iso saved) ≡ parsed (sorted_session saved))
    × ((k : String)
        → get String_discrete k (sorted_session saved).usage ≡ get String_discrete k saved.usage)
    × (session_from_json iso 9 (session_to_json iso (sorted_session saved))
        ≡ parsed (sorted_session saved))
session_from_json-session_to_json_example = session_from_json-session_to_json iso 9 saved

test_sorted : (sorted_session saved).usage ≡ ("calls", 1) ∷ ("tokens", 3) ∷ []
unfolding sorted_session sort_usage insert_count key_lt codes text_lt
test_sorted = refl

abbrev request : ApprovalRequest
request = record {
  session_id = "s-1";
  run_id = "r";
  config_generation = 1;
  server_name = "srv";
  raw_tool_name = "rm";
  final_tool_name = "srv_rm";
  args_hash = "h";
  args_preview = "{}";
  checkpoint = end;
  timeout_seconds = 300;
}
