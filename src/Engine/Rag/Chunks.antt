-- ===== src/Engine/Rag/Chunks.antt =====
-- app/engine/rag.py: the text functions.
use agentstrata.Prelude.{
  Bool, List, Option, [], drop, if◌then◌else◌, leb, length, ltb, none, not, some, suc, take, zero,
  ℕ, ◌&&◌, ◌++◌, ◌+◌, ◌-◌, ◌==◌, ◌∷◌,
}
use agentstrata.Storage.Memory.Commands.{step}
use agentstrata.Text.{Text, decimal}

-- text.replace("\r\n", "\n")
unfoldable pub replace_crlf : Text → Text
replace_crlf [] = []
replace_crlf (c ∷ []) = c ∷ []
replace_crlf (c ∷ d ∷ text) =
    let short = replace_crlf text in
    let long = replace_crlf (d ∷ text) in if c == 13 && d == 10 then 10 ∷ short else c ∷ long

-- text.replace("\r", "\n")
unfoldable pub replace_cr : Text → Text
replace_cr [] = []
replace_cr (c ∷ text) = (if c == 13 then 10 else c) ∷ replace_cr text

unfoldable pub normalize_text : Text → Text
unfolding replace_crlf replace_cr
normalize_text text = replace_cr (replace_crlf text)

-- while start < length: …, on fuel
unfoldable pub windows : ℕ → ℕ → ℕ → ℕ → Text → List Text
windows zero chunk_chars step start text = []
windows (suc fuel) chunk_chars step start text =
    let rest = windows fuel chunk_chars step (start + step) text in
    if ltb start (length text) then take chunk_chars (drop start text) ∷ rest else []

-- The parameters that do not raise.
unfoldable pub valid_parameters : ℕ → ℕ → Bool
valid_parameters chunk_chars overlap_chars =
    not (chunk_chars == 0) && not (leb chunk_chars overlap_chars)

-- chunk_text, with none for the `ValueError`; the parameters are not negative
unfoldable pub chunk_text : Text → ℕ → ℕ → Option (List Text)
unfolding normalize_text windows valid_parameters
chunk_text text chunk_chars overlap_chars =
    let normalized = normalize_text text in
    if valid_parameters chunk_chars overlap_chars
    then some (windows (length normalized) chunk_chars (chunk_chars - overlap_chars) 0 normalized)
    else none

-- chunk_key
unfoldable pub chunk_key : Text → Text → Text → ℕ → Text → Text → Text
unfolding decimal
chunk_key agent_name principal_id document_id chunk_index embedding_model chunk_hash =
    agent_name
    ++ b'|' ∷ principal_id
    ++ b'|' ∷ document_id
    ++ b'|' ∷ decimal chunk_index
    ++ b'|' ∷ embedding_model
    ++ b'|' ∷ chunk_hash

-- ChunkHit.stable_id
unfoldable pub stable_id : Text → ℕ → Text
unfolding decimal
stable_id document_id chunk_index = document_id ++ b':' ∷ decimal chunk_index
