-- ===== src/Engine/Rag/Examples.antt =====
-- app/engine/rag.py: concrete texts and stores. A vector is a number, and the score of two is
-- their product.
use agentstrata.Engine.Rag.Chunks.{chunk_text, normalize_text}
use agentstrata.Engine.Rag.Covering.{IsChunk, chunk_text-covers, pieces}
use agentstrata.Engine.Rag.Isolation.{
  chunks_of, search-delete_principal, search-isolated, search_bounds,
}
use agentstrata.Engine.Rag.Store.{
  ChunkHit, MemoryRagStore, StoredChunk, Vectors, add_hit, delete_principal, hits_of, insert_hit,
  owned_chunk, ranked, search, sort_hits, text_eq,
}
use agentstrata.Prelude.{
  All, List, [], arith, keep_if, leb, length, ltb, refl, some, true, ℕ, ◌*◌, ◌==◌, ◌∷◌, ◌≡◌, ◌≤◌,
}
use agentstrata.Text.{Text, text_discrete}

abbrev vectors : Vectors
vectors = record {
  Vector = ℕ;
  Score = ℕ;
  cosine = λ x y. some (x * y);
  score_lt = ltb;
  score_eq = ◌==◌;
  at_least = λ x y. leb y x;
}

chunk_text-covers_example :
    (chunks : List Text) × (chunk_text (b'a' ∷ 13 ∷ 10 ∷ b'b' ∷ b'c' ∷ []) 3 1 ≡ some chunks)
    × All (IsChunk 3) chunks
    × (pieces 2 chunks ≡ normalize_text (b'a' ∷ 13 ∷ 10 ∷ b'b' ∷ b'c' ∷ []))
chunk_text-covers_example =
    chunk_text-covers (b'a' ∷ 13 ∷ 10 ∷ b'b' ∷ b'c' ∷ []) 3 1 (omega arith) (omega arith)

abbrev agent : Text
agent = b'g' ∷ []

abbrev ada : Text
ada = b'a' ∷ []

abbrev eve : Text
eve = b'e' ∷ []

abbrev model : Text
model = b'm' ∷ []

abbrev chunk : Text → ℕ → StoredChunk vectors
chunk owner vector = record {
  agent_name = agent;
  principal_id = owner;
  document_id = b'd' ∷ [];
  chunk_index = 0;
  text = b't' ∷ [];
  content_hash = b'h' ∷ [];
  embedding = vector;
  embedding_model = model;
}

abbrev mine : MemoryRagStore vectors
mine = record { chunks = ([], chunk ada 2) ∷ []; documents = [] }

abbrev shared : MemoryRagStore vectors
shared = record { chunks = ([], chunk ada 2) ∷ (b'k' ∷ [], chunk eve 3) ∷ []; documents = [] }

same_chunks : chunks_of vectors agent ada shared ≡ chunks_of vectors agent ada mine
unfolding keep_if owned_chunk text_eq text_discrete
same_chunks = refl

search-isolated_example :
    search vectors agent ada 1 model 5 0 shared ≡ search vectors agent ada 1 model 5 0 mine
search-isolated_example = search-isolated vectors agent ada model 1 5 0 shared mine same_chunks

search-delete_principal_example :
    search vectors agent ada 1 model 5 0 (delete_principal vectors agent ada shared).1 ≡ some []
search-delete_principal_example = search-delete_principal vectors agent ada model 1 5 0 shared

abbrev hit : ChunkHit vectors
hit = record {
  document_id = b'd' ∷ [];
  chunk_index = 0;
  text = b't' ∷ [];
  score = 2;
  content_hash = b'h' ∷ [];
}

found_one : search vectors agent ada 1 model 5 1 shared ≡ some (hit ∷ [])
unfolding search ranked hits_of add_hit owned_chunk text_eq text_discrete sort_hits insert_hit
    keep_if
found_one = refl

search_bounds_example :
    (length (hit ∷ []) ≤ 5) × All (λ (h : ChunkHit vectors). leb 1 h.score ≡ true) (hit ∷ [])
search_bounds_example = search_bounds vectors agent ada model 1 5 1 shared (hit ∷ []) found_one
