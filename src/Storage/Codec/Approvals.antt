-- ===== src/Storage/Codec/Approvals.antt =====
-- app/storage/model.py: the JSON form of an approval record.
use agentstrata.Json.{Fields, Json, end, field, int, null, obj, pos, str}
use agentstrata.Prelude.{Option, String, get_or, if◌then◌else◌, none, some, ℕ}
use agentstrata.Storage.Codec.{time_json}
use agentstrata.Storage.Model.{ApprovalRecord}
use agentstrata.Storage.Parsing.{
  IsoFormat, Parsed, bool_of, dict_of, get_field, is_schema_version, outside, parse_iso, parsed,
  required, str_of, text_of, type_error, value_error, ◌>>=◌,
}

unfoldable pub reason_json : Option String → Json
reason_json none = null
reason_json (some s) = str s

-- parsed.get("reason")
unfoldable pub reason_of : Option Json → Parsed (Option String)
reason_of none = parsed none
reason_of (some null) = parsed none
reason_of (some (str s)) = parsed (some s)
reason_of (some _) = outside

-- A number that is kept as it is.
unfoldable pub number_of : Json → Parsed ℕ
number_of (int (pos n)) = parsed n
number_of _ = outside

-- parsed.get(name, default)
unfoldable pub text_or : String → String → Fields → Parsed String
unfolding get_field text_of
text_or name default doc = text_of (get_or (get_field name doc) (str default))

unfoldable pub number_or : String → ℕ → Fields → Parsed ℕ
unfolding get_field number_of
number_or name default doc = number_of (get_or (get_field name doc) (int (pos default)))

module _ (iso : IsoFormat) where
  -- The fields from `status` on.
  unfoldable pub approval_rest : ApprovalRecord → Fields
  unfolding time_json reason_json
  approval_rest r = field "status" (str r.status) (
      field "timeout_seconds" (int (pos r.timeout_seconds)) (
        field "reason" (reason_json r.reason) (
          field "created_at" (str (iso.isoformat r.created_at)) (
            field "expires_at" (str (iso.isoformat r.expires_at)) (
              field "decided_at" (time_json iso r.decided_at) (
                field "revision" (int (pos r.revision))
                  (field "schema_version" (int (pos 1)) end)))))))

  -- json.dumps(…, default=str) writes these values as they are.
  unfoldable pub approval_to_json : ApprovalRecord → Json
  unfolding approval_rest
  approval_to_json r = obj (
      field "agent_name" (str r.agent_name) (
        field "principal_id" (str r.principal_id) (
          field "session_id" (str r.session_id) (
            field "run_id" (str r.run_id) (
              field "approval_id" (str r.approval_id) (
                field "config_generation" (int (pos r.config_generation)) (
                  field "server_name" (str r.server_name) (
                    field "raw_tool_name" (str r.raw_tool_name) (
                      field "final_tool_name" (str r.final_tool_name) (
                        field "args_hash" (str r.args_hash) (
                          field "args_preview" (str r.args_preview)
                            (field "checkpoint" (obj r.checkpoint) (approval_rest r)))))))))))))

  -- _parse_iso(v) if v else None
  unfoldable pub decided_of : ℕ → Option Json → Parsed (Option ℕ)
  unfolding parse_iso bool_of
  decided_of now none = parsed none
  decided_of now (some v) =
      if bool_of v then (parse_iso iso now none (some v) >>= λ t. parsed (some t)) else parsed none

  unfoldable pub approval_from_json : ℕ → Json → Parsed ApprovalRecord
  unfolding get_field required parse_iso dict_of str_of text_of is_schema_version reason_of text_or
      number_or decided_of
  approval_from_json now (obj doc) =
      if is_schema_version (some (get_or (get_field "schema_version" doc) (int (pos 1))))
      then (do
        agent_name ← required "agent_name" doc >>= text_of
        principal_id ← required "principal_id" doc >>= text_of
        session_id ← required "session_id" doc >>= text_of
        run_id ← required "run_id" doc >>= text_of
        approval_id ← required "approval_id" doc >>= text_of
        config_generation ← number_or "config_generation" 1 doc
        server_name ← text_or "server_name" "" doc
        raw_tool_name ← text_or "raw_tool_name" "" doc
        final_tool_name ← text_or "final_tool_name" "" doc
        args_hash ← text_or "args_hash" "" doc
        args_preview ← text_or "args_preview" "" doc
        checkpoint ← dict_of (get_or (get_field "checkpoint" doc) (obj end))
        status ← str_of (get_or (get_field "status" doc) (str "pending"))
        timeout_seconds ← number_or "timeout_seconds" 300 doc
        reason ← reason_of (get_field "reason" doc)
        created_at ← parse_iso iso now none (get_field "created_at" doc)
        expires_at ← parse_iso iso now none (get_field "expires_at" doc)
        decided_at ← decided_of now (get_field "decided_at" doc)
        revision ← number_or "revision" 1 doc
        parsed (record {
          agent_name = agent_name;
          principal_id = principal_id;
          session_id = session_id;
          run_id = run_id;
          approval_id = approval_id;
          config_generation = config_generation;
          server_name = server_name;
          raw_tool_name = raw_tool_name;
          final_tool_name = final_tool_name;
          args_hash = args_hash;
          args_preview = args_preview;
          checkpoint = checkpoint;
          status = status;
          timeout_seconds = timeout_seconds;
          reason = reason;
          created_at = created_at;
          expires_at = expires_at;
          decided_at = decided_at;
          revision = revision;
        }))
      else value_error
  approval_from_json now _ = type_error
