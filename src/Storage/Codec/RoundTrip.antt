-- ===== src/Storage/Codec/RoundTrip.antt =====
-- app/storage/model.py: what is read back of a record that was written.
use agentstrata.Json.{Fields, Items, Json, arr, bool, end, field, int, obj, pos, str}
use agentstrata.Prelude.{
  Option, Option-cases, String, String_discrete, ap, get_or, inl, inr, map, none, refl, some, sym,
  ℕ, ◌∙◌, ◌≡◌,
}
use agentstrata.Prelude.Dict.{get}
use agentstrata.Storage.Codec.{
  idempotency_from_json, idempotency_to_json, run_from_json, run_to_json, session_from_json,
  session_to_json, time_json,
}
use agentstrata.Storage.Codec.Approvals.{
  approval_from_json, approval_rest, approval_to_json, decided_of, reason_json, reason_of,
}
use agentstrata.Storage.Codec.Counts.{get-sort_usage}
use agentstrata.Storage.Codec.Sorted.{
  map-twice, sort_fields-usage_json, sort_items-items_of, sort_usage-twice, sorted_session-twice,
  usage_of-usage_json, values-items_of,
}
use agentstrata.Storage.Codec.Sorting.{
  sort_fields, sort_items, sort_json, sort_usage, sorted_run, sorted_session,
}
use agentstrata.Storage.Model.{ApprovalRecord, IdempotencyRecord, RunRecord, SessionRecord}
use agentstrata.Storage.Parsing.{IsoFormat, items_of, parse_iso, parsed, usage_json}

reason_of-reason_json : (o : Option String) → reason_of (some (reason_json o)) ≡ parsed o
unfolding reason_of reason_json
reason_of-reason_json none = refl
reason_of-reason_json (some s) = refl

module _ (iso : IsoFormat) where
  parse_iso-isoformat :
      (now t : ℕ) (default : Option ℕ)
      → parse_iso iso now default (some (str (iso.isoformat t))) ≡ parsed t
  unfolding parse_iso
  parse_iso-isoformat now t default =
      rw (iso.isoformat_not_empty t, iso.fromisoformat_isoformat t) refl

  pub read_session-written :
      (now : ℕ) (r : SessionRecord)
      → session_from_json iso now (session_to_json iso r) ≡ parsed (sorted_session r)
  unfolding session_from_json session_to_json sorted_session
  read_session-written now r =
      rw
        (
          sort_items-items_of r.events,
          values-items_of (map sort_json r.events),
          sort_fields-usage_json r.usage,
          usage_of-usage_json (sort_usage r.usage),
          iso.isoformat_not_empty r.created_at,
          iso.fromisoformat_isoformat r.created_at,
          iso.isoformat_not_empty r.updated_at,
          iso.fromisoformat_isoformat r.updated_at,
        )
        refl

  -- A session record that was written is read back, at any time, with the keys of its usage and
  -- of every object in its events sorted, and else as it was. The sorting changes no count of
  -- the usage, and a record that was read is written and read back as it is.
  pub session_from_json-session_to_json :
      (now : ℕ) (r : SessionRecord)
      → (session_from_json iso now (session_to_json iso r) ≡ parsed (sorted_session r))
        × ((k : String)
            → get String_discrete k (sorted_session r).usage ≡ get String_discrete k r.usage)
        × (session_from_json iso now (session_to_json iso (sorted_session r))
            ≡ parsed (sorted_session r))
  unfolding sorted_session
  session_from_json-session_to_json now r = (
    read_session-written now r,
    λ k. get-sort_usage k r.usage,
    read_session-written now (sorted_session r) ∙ ap parsed (sorted_session-twice r),
  )

  -- A run record that was written is read back with sorted keys, at any time.
  pub run_from_json-run_to_json :
      (now : ℕ) (r : RunRecord) → run_from_json iso now (run_to_json iso r) ≡ parsed (sorted_run r)
  unfolding run_from_json run_to_json sorted_run
  run_from_json-run_to_json now r =
      rw
        (
          sort_fields-usage_json r.usage,
          usage_of-usage_json (sort_usage r.usage),
          iso.isoformat_not_empty r.created_at,
          iso.fromisoformat_isoformat r.created_at,
          iso.isoformat_not_empty r.updated_at,
          iso.fromisoformat_isoformat r.updated_at,
        )
        refl

  -- An idempotency record that was written is read back with sorted keys if it has an expiry;
  -- without one, it is also read back as expiring at the time it is read.
  pub idempotency_from_json-idempotency_to_json :
      (now : ℕ) (r : IdempotencyRecord)
      → idempotency_from_json iso now (idempotency_to_json iso r)
        ≡ parsed (record r {
          outcome = sort_fields r.outcome;
          expires_at = some (get_or r.expires_at now);
        })
  unfolding idempotency_from_json idempotency_to_json
  idempotency_from_json-idempotency_to_json now r = elim (Option-cases r.expires_at) [
    | inl e ↦
        rw (iso.isoformat_not_empty r.created_at, iso.fromisoformat_isoformat r.created_at, e) refl
    | inr (t, e) ↦
        rw
          (
            iso.isoformat_not_empty r.created_at,
            iso.fromisoformat_isoformat r.created_at,
            e,
            time_json,
            iso.isoformat_not_empty t,
            iso.fromisoformat_isoformat t,
          )
          refl
  ]

  decided_of-time_json :
      (now : ℕ) (o : Option ℕ) → decided_of iso now (some (time_json iso o)) ≡ parsed o
  unfolding decided_of time_json parse_iso
  decided_of-time_json now none = refl
  decided_of-time_json now (some t) =
      rw (iso.isoformat_not_empty t, iso.fromisoformat_isoformat t) refl

  -- An approval record that was written is read back as it was, at any time.
  pub approval_from_json-approval_to_json :
      (now : ℕ) (r : ApprovalRecord)
      → approval_from_json iso now (approval_to_json iso r) ≡ parsed r
  unfolding approval_from_json approval_to_json approval_rest
  approval_from_json-approval_to_json now r =
      rw
        (
          reason_of-reason_json r.reason,
          decided_of-time_json now r.decided_at,
          iso.isoformat_not_empty r.created_at,
          iso.fromisoformat_isoformat r.created_at,
          iso.isoformat_not_empty r.expires_at,
          iso.fromisoformat_isoformat r.expires_at,
        )
        refl

  -- The fields of a session's file in the order they are written in.
  abbrev session_file_json : SessionRecord → Items → Fields → Json
  session_file_json r items usage = obj (
      field "agent_name" (str r.key.0) (
        field "created_at" (str (iso.isoformat r.created_at)) (
          field "events" (arr items) (
            field "history_truncated" (bool r.history_truncated) (
              field "principal_id" (str r.key.1) (
                field "revision" (int (pos r.revision)) (
                  field "schema_version" (int (pos 1)) (
                    field "session_id" (str r.key.2) (
                      field "updated_at" (str (iso.isoformat r.updated_at))
                        (field "usage" (obj usage) end))))))))))

  -- What is written does not show in which order the keys stood.
  pub session_to_json-sorted :
      (r : SessionRecord) → session_to_json iso (sorted_session r) ≡ session_to_json iso r
  unfolding session_to_json sorted_session
  session_to_json-sorted r =
      let events : sort_items (items_of (map sort_json r.events)) ≡ sort_items (items_of r.events) =
        sort_items-items_of (map sort_json r.events)
        ∙ ap items_of (map-twice r.events)
        ∙ sym (sort_items-items_of r.events) in
      let usage : sort_fields (usage_json (sort_usage r.usage)) ≡ sort_fields (usage_json r.usage) =
        sort_fields-usage_json (sort_usage r.usage)
        ∙ ap usage_json (sort_usage-twice r.usage)
        ∙ sym (sort_fields-usage_json r.usage) in
      λ i. session_file_json r (events i) (usage i)
