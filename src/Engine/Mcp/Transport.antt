-- ===== src/Engine/Mcp/Transport.antt =====
-- app/engine/mcp/bounds.py: the byte cap on a response, and the caps on a tool's metadata. A chunk
-- is what it weighs: its number of bytes.
use agentstrata.Prelude.{
  Bool, Bool-cases, List, Option, String, [], arith, false, if◌then◌else◌, inl, inr, length, ltb,
  none, refl, some, true, ℕ, ◌+◌, ◌∷◌, ◌≡◌, ◌≤◌, ◌⊎◌,
}
use agentstrata.Text.{Text, utf8_length}

-- `__aiter__` of `_BoundedByteStream`, from a count on: the chunks that are passed on, and whether
-- it ends with `TransportMessageTooLarge`.
unfoldable pub bounded_chunks : ℕ → ℕ → List ℕ → List ℕ × Bool
bounded_chunks limit count [] = ([], false)
bounded_chunks limit count (chunk ∷ chunks) =
    let rest = bounded_chunks limit (count + chunk) chunks in
    if ltb limit (count + chunk) then ([], true) else (chunk ∷ rest.0, rest.1)

abbrev pub bytes : List ℕ → ℕ
bytes [] = 0
bytes (chunk ∷ chunks) = chunk + bytes chunks

-- The chunks that are passed on stay within the cap, and unless the stream is cut they are all.
pub bounded_chunks-le :
    (limit count : ℕ) (chunks : List ℕ)
    → count ≤ limit
    → (count + bytes (bounded_chunks limit count chunks).0 ≤ limit)
      × (((bounded_chunks limit count chunks).1 ≡ true)
          ⊎ ((bounded_chunks limit count chunks).0 ≡ chunks))
unfolding bounded_chunks
bounded_chunks-le limit count [] h = (omega arith, inr refl)
bounded_chunks-le limit count (chunk ∷ chunks) h = elim (Bool-cases (ltb limit (count + chunk))) [
  | inl e ↦ ground arith
  | inr e ↦ ground (arith, bounded_chunks-le limit (count + chunk) chunks)
]

-- validate_tool_metadata, with the size of the schema's JSON text, or none without a schema. A
-- schema that has no JSON text has size 0.
unfoldable pub validate_tool_metadata : Text → Text → Option ℕ → Option String
unfolding utf8_length
validate_tool_metadata name description schema_size =
    if ltb 128 (utf8_length name)
    then some "tool name exceeds 128 bytes"
    else if ltb 4096 (length description)
    then some "tool description exceeds 4096 code points"
    else elim schema_size [
      | none ↦ none
      | some size ↦ if ltb 65536 size then some "tool input schema exceeds 65536 bytes" else none
    ]
