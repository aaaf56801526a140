-- ===== src/Storage/Codec.antt =====
-- app/storage/model.py: what `to_json` hands to json.dumps and `from_json` gets from json.loads.
-- A stored text is the value that it stands for, with its keys in the order they are written. A value of a kind that no `to_json` writes, and
-- that Python would convert or keep in a way that the records here cannot hold, is `outside`.
pub mod Approvals
pub mod Sorting
pub mod Order
pub mod Counts
pub mod Sorted
pub mod RoundTrip
use agentstrata.Json.{Json, arr, bool, end, field, int, nil, null, obj, pos, str}
use agentstrata.Prelude.{Option, false, get_or, if◌then◌else◌, none, some, ℕ}
use agentstrata.Storage.Codec.Sorting.{sort_json}
use agentstrata.Storage.Model.{IdempotencyRecord, RunRecord, SessionRecord}
use agentstrata.Storage.Parsing.{
  IsoFormat, Parsed, bool_of, dict_of, get_field, int_of, is_schema_version, items_of, list_of,
  parse_iso, parsed, required, str_of, text_of, type_error, usage_json, usage_of, value_error,
  ◌>>=◌,
}

module _ (iso : IsoFormat) where
  unfoldable pub time_json : Option ℕ → Json
  time_json none = null
  time_json (some t) = str (iso.isoformat t)

  unfoldable pub session_to_json : SessionRecord → Json
  unfolding usage_json items_of sort_json
  session_to_json r = sort_json (
      obj (
        field "schema_version" (int (pos 1)) (
          field "agent_name" (str r.key.0) (
            field "principal_id" (str r.key.1) (
              field "session_id" (str r.key.2) (
                field "revision" (int (pos r.revision)) (
                  field "events" (arr (items_of r.events)) (
                    field "usage" (obj (usage_json r.usage)) (
                      field "history_truncated" (bool r.history_truncated) (
                        field "created_at" (str (iso.isoformat r.created_at))
                          (field "updated_at" (str (iso.isoformat r.updated_at)) end)))))))))))

  -- `now` is the time of `utcnow`, which is asked for a missing or unreadable time.
  unfoldable pub session_from_json : ℕ → Json → Parsed SessionRecord
  unfolding get_field required parse_iso usage_of list_of int_of bool_of dict_of text_of
      is_schema_version
  session_from_json now (obj doc) =
      if is_schema_version (get_field "schema_version" doc)
      then (do
        agent_name ← required "agent_name" doc >>= text_of
        principal_id ← required "principal_id" doc >>= text_of
        session_id ← required "session_id" doc >>= text_of
        revision ← int_of (get_or (get_field "revision" doc) (int (pos 1)))
        events ← list_of (get_or (get_field "events" doc) (arr nil))
        usage ← dict_of (get_or (get_field "usage" doc) (obj end)) >>= usage_of
        parsed_created ← parse_iso iso now none (get_field "created_at" doc)
        parsed_updated ← parse_iso iso now none (get_field "updated_at" doc)
        created_at ← parse_iso iso now (some parsed_updated) (get_field "created_at" doc)
        updated_at ← parse_iso iso now (some parsed_created) (get_field "updated_at" doc)
        parsed (record {
          key = (agent_name, principal_id, session_id);
          revision = revision;
          events = events;
          usage = usage;
          history_truncated = bool_of (get_or (get_field "history_truncated" doc) (bool false));
          created_at = created_at;
          updated_at = updated_at;
        }))
      else value_error
  session_from_json now _ = type_error

  unfoldable pub run_to_json : RunRecord → Json
  unfolding usage_json sort_json
  run_to_json r = sort_json (
      obj (
        field "schema_version" (int (pos 1)) (
          field "agent_name" (str r.key.0.0) (
            field "principal_id" (str r.key.0.1) (
              field "session_id" (str r.key.0.2) (
                field "run_id" (str r.key.1) (
                  field "status" (str r.status) (
                    field "iteration_count" (int (pos r.iteration_count)) (
                      field "input" (obj r.input) (
                        field "outcome" (obj r.outcome) (
                          field "usage" (obj (usage_json r.usage)) (
                            field "created_at" (str (iso.isoformat r.created_at)) (
                              field "updated_at" (str (iso.isoformat r.updated_at)) end)))))))))))))

  unfoldable pub run_from_json : ℕ → Json → Parsed RunRecord
  unfolding get_field required parse_iso usage_of int_of dict_of str_of text_of is_schema_version
  run_from_json now (obj doc) =
      if is_schema_version (get_field "schema_version" doc)
      then (do
        agent_name ← required "agent_name" doc >>= text_of
        principal_id ← required "principal_id" doc >>= text_of
        session_id ← required "session_id" doc >>= text_of
        run_id ← required "run_id" doc >>= text_of
        status ← str_of (get_or (get_field "status" doc) (str "created"))
        iteration_count ← int_of (get_or (get_field "iteration_count" doc) (int (pos 0)))
        run_input ← dict_of (get_or (get_field "input" doc) (obj end))
        outcome ← dict_of (get_or (get_field "outcome" doc) (obj end))
        usage ← dict_of (get_or (get_field "usage" doc) (obj end)) >>= usage_of
        parsed_created ← parse_iso iso now none (get_field "created_at" doc)
        parsed_updated ← parse_iso iso now none (get_field "updated_at" doc)
        created_at ← parse_iso iso now (some parsed_updated) (get_field "created_at" doc)
        updated_at ← parse_iso iso now (some parsed_created) (get_field "updated_at" doc)
        parsed (record {
          key = ((agent_name, principal_id, session_id), run_id);
          status = status;
          iteration_count = iteration_count;
          input = run_input;
          outcome = outcome;
          usage = usage;
          created_at = created_at;
          updated_at = updated_at;
        }))
      else value_error
  run_from_json now _ = type_error

  unfoldable pub idempotency_to_json : IdempotencyRecord → Json
  unfolding time_json sort_json
  idempotency_to_json r = sort_json (
      obj (
        field "schema_version" (int (pos 1)) (
          field "agent_name" (str r.key_tuple.0.0) (
            field "principal_id" (str r.key_tuple.0.1) (
              field "session_id" (str r.key_tuple.0.2) (
                field "key" (str r.key_tuple.1) (
                  field "status" (str r.status) (
                    field "outcome" (obj r.outcome) (
                      field "created_at" (str (iso.isoformat r.created_at))
                        (field "expires_at" (time_json r.expires_at) end))))))))))

  unfoldable pub idempotency_from_json : ℕ → Json → Parsed IdempotencyRecord
  unfolding get_field required parse_iso dict_of str_of text_of is_schema_version
  idempotency_from_json now (obj doc) =
      if is_schema_version (get_field "schema_version" doc)
      then (do
        agent_name ← required "agent_name" doc >>= text_of
        principal_id ← required "principal_id" doc >>= text_of
        session_id ← required "session_id" doc >>= text_of
        key ← required "key" doc >>= text_of
        status ← str_of (get_or (get_field "status" doc) (str "in_progress"))
        outcome ← dict_of (get_or (get_field "outcome" doc) (obj end))
        created_at ← parse_iso iso now none (get_field "created_at" doc)
        expires_at ← parse_iso iso now none (get_field "expires_at" doc)
        parsed (record {
          key_tuple = ((agent_name, principal_id, session_id), key);
          status = status;
          outcome = outcome;
          created_at = created_at;
          expires_at = some expires_at;
        }))
      else value_error
  idempotency_from_json now _ = type_error
