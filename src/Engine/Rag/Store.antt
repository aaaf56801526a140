-- ===== src/Engine/Rag/Store.antt =====
-- app/engine/rag.py: `MemoryRagStore`. A method is one step, as it awaits nothing. Texts are
-- lists of code points; metadata is kept as it is given.
use agentstrata.Engine.Rag.Chunks.{chunk_key, stable_id}
use agentstrata.Json.{Fields}
use agentstrata.Prelude.{
  Bool, List, Option, [], count_if, false, if◌then◌else◌, ite, keep_if, none, not, some, suc, take,
  true, ℕ, ◌&&◌, ◌∷◌,
}
use agentstrata.Prelude.Dict.{Dict, get, pop, put}
use agentstrata.Text.{Text, text_discrete, text_lt}

-- Python's floating point numbers, as `search` uses them: the vectors, `_cosine`, which raises
-- for vectors of different dimensions, and `<`, `==` and `>=` on scores.
pub record Vectors : Type 1 where
  pub Vector : Type 0
  pub Score : Type 0
  pub cosine : Vector → Vector → Option Score
  pub score_lt : Score → Score → Bool
  pub score_eq : Score → Score → Bool
  pub at_least : Score → Score → Bool

pub record DocumentRecord : Type 0 where
  pub document_id : Text
  pub agent_name : Text
  pub principal_id : Text
  pub chunk_count : ℕ
  pub content_hash : Text
  pub metadata : Fields
  pub embedding_model : Text
  pub created_at : ℕ
  pub updated_at : ℕ

-- (agent_name, principal_id, document_id)
abbrev pub DocumentKey : Type 0
DocumentKey = Text × Text × Text

unfoldable pub document_discrete : Discrete (Text × Text × Text)
unfolding text_discrete
document_discrete = hlevel text_discrete

unfoldable pub text_eq : Text → Text → Bool
unfolding text_discrete
text_eq a b = ite (text_discrete a b) true false

module _ (vectors : Vectors) where
  pub record StoredChunk : Type 0 where
    pub agent_name : Text
    pub principal_id : Text
    pub document_id : Text
    pub chunk_index : ℕ
    pub text : Text
    pub content_hash : Text
    pub embedding : vectors.Vector
    pub embedding_model : Text

  pub record ChunkHit : Type 0 where
    pub document_id : Text
    pub chunk_index : ℕ
    pub text : Text
    pub score : vectors.Score
    pub content_hash : Text

  pub record MemoryRagStore : Type 0 where
    pub chunks : Dict Text StoredChunk
    pub documents : Dict DocumentKey DocumentRecord

  -- __init__
  unfoldable pub empty_store : MemoryRagStore
  empty_store = record { chunks = []; documents = [] }

  -- The loop of `upsert_document`, with the count that it returns.
  unfoldable pub put_chunks :
      DocumentKey
      → Text
      → List (ℕ × Text × Text × vectors.Vector)
      → Dict Text StoredChunk
      → ℕ × Dict Text StoredChunk
  unfolding chunk_key text_discrete
  put_chunks key model [] stored_chunks = (0, stored_chunks)
  put_chunks key model ((i, chunk, hash, vector) ∷ entries) stored_chunks =
      let c : StoredChunk = record {
        agent_name = key.0;
        principal_id = key.1;
        document_id = key.2;
        chunk_index = i;
        text = chunk;
        content_hash = hash;
        embedding = vector;
        embedding_model = model;
      } in
      let rest =
        put_chunks key model entries
          (put text_discrete (chunk_key key.0 key.1 key.2 i model hash) c stored_chunks) in
      (suc rest.0, rest.1)

  unfoldable pub upsert_document :
      DocumentKey
      → Text
      → Fields
      → List (ℕ × Text × Text × vectors.Vector)
      → Text
      → ℕ
      → MemoryRagStore
      → DocumentRecord × MemoryRagStore
  unfolding put_chunks document_discrete
  upsert_document key model metadata entries hash now s =
      let put_all = put_chunks key model entries s.chunks in
      let r : DocumentRecord = record {
        document_id = key.2;
        agent_name = key.0;
        principal_id = key.1;
        chunk_count = put_all.0;
        content_hash = hash;
        metadata = metadata;
        embedding_model = model;
        created_at = elim (get document_discrete key s.documents) [
          | none ↦ now
          | some existing ↦ existing.created_at
        ];
        updated_at = now;
      } in
      (r, record { chunks = put_all.1; documents = put document_discrete key r s.documents })

  unfoldable pub get_document : DocumentKey → MemoryRagStore → Option DocumentRecord
  unfolding document_discrete
  get_document key s = get document_discrete key s.documents

  -- c.agent_name == agent_name and c.principal_id == principal_id
  unfoldable pub owned_chunk : Text → Text → StoredChunk → Bool
  unfolding text_eq
  owned_chunk agent_name principal_id c =
      text_eq c.agent_name agent_name && text_eq c.principal_id principal_id

  -- hits.append(…), unless `_cosine` raised here or further on
  unfoldable pub add_hit :
      StoredChunk → Option vectors.Score → Option (List ChunkHit) → Option (List ChunkHit)
  add_hit c none others = none
  add_hit c (some score) none = none
  add_hit c (some score) (some hits) = some (
      record {
        document_id = c.document_id;
        chunk_index = c.chunk_index;
        text = c.text;
        score = score;
        content_hash = c.content_hash;
      }
      ∷ hits)

  -- The loop of `search`; none if `_cosine` raises.
  unfoldable pub hits_of :
      Text → Text → Text → vectors.Vector → Dict Text StoredChunk → Option (List ChunkHit)
  unfolding owned_chunk text_eq add_hit
  hits_of agent_name principal_id model query [] = some []
  hits_of agent_name principal_id model query ((k, c) ∷ rest) =
      let others = hits_of agent_name principal_id model query rest in
      if owned_chunk agent_name principal_id c && text_eq c.embedding_model model
      then add_hit c (vectors.cosine query c.embedding) others
      else others

  -- (-g.score, g.stable_id) < (-h.score, h.stable_id)
  unfoldable pub before : ChunkHit → ChunkHit → Bool
  unfolding stable_id text_lt
  before g h =
      if vectors.score_eq g.score h.score
      then text_lt (stable_id g.document_id g.chunk_index) (stable_id h.document_id h.chunk_index)
      else vectors.score_lt h.score g.score

  -- hits.sort(…), which is stable
  unfoldable pub insert_hit : ChunkHit → List ChunkHit → List ChunkHit
  unfolding before
  insert_hit h [] = h ∷ []
  insert_hit h (g ∷ hits) = if before g h then g ∷ insert_hit h hits else h ∷ g ∷ hits

  unfoldable pub sort_hits : List ChunkHit → List ChunkHit
  unfolding insert_hit
  sort_hits [] = []
  sort_hits (h ∷ hits) = insert_hit h (sort_hits hits)

  -- [h for h in hits[:top_k] if h.score >= min_score], after the sort
  unfoldable pub ranked : ℕ → vectors.Score → Option (List ChunkHit) → Option (List ChunkHit)
  unfolding sort_hits keep_if
  ranked top_k min_score none = none
  ranked top_k min_score (some hits) =
      some (
        keep_if (λ (h : ChunkHit). vectors.at_least h.score min_score)
          (take top_k (sort_hits hits)))

  unfoldable pub search :
      Text
      → Text
      → vectors.Vector
      → Text
      → ℕ
      → vectors.Score
      → MemoryRagStore
      → Option (List ChunkHit)
  unfolding hits_of ranked
  search agent_name principal_id query model top_k min_score s =
      ranked top_k min_score (hits_of agent_name principal_id model query s.chunks)

  -- Dictionary entries that are deleted, counted and dropped.
  unfoldable pub drop_chunks : (StoredChunk → Bool) → MemoryRagStore → ℕ × Dict Text StoredChunk
  unfolding count_if keep_if
  drop_chunks p s = (
    count_if (λ (e : Text × StoredChunk). p e.1) s.chunks,
    keep_if (λ (e : Text × StoredChunk). not (p e.1)) s.chunks,
  )

  unfoldable pub delete_document : DocumentKey → MemoryRagStore → ℕ × MemoryRagStore
  unfolding drop_chunks owned_chunk text_eq document_discrete
  delete_document key s =
      let dropped = drop_chunks (λ c. owned_chunk key.0 key.1 c && text_eq c.document_id key.2) s in
      (dropped.0, record { chunks = dropped.1; documents = pop document_discrete key s.documents })

  unfoldable pub orphaned_chunk_count : Text → MemoryRagStore → ℕ
  unfolding count_if text_eq
  orphaned_chunk_count model s =
      count_if (λ (e : Text × StoredChunk). not (text_eq e.1.embedding_model model)) s.chunks

  unfoldable pub delete_principal : Text → Text → MemoryRagStore → ℕ × MemoryRagStore
  unfolding drop_chunks owned_chunk text_eq keep_if
  delete_principal agent_name principal_id s =
      let dropped = drop_chunks (owned_chunk agent_name principal_id) s in
      (
        dropped.0,
        record {
          chunks = dropped.1;
          documents =
              keep_if
                (λ (e : DocumentKey × DocumentRecord).
                  not (text_eq e.0.0 agent_name && text_eq e.0.1 principal_id))
                s.documents;
        },
      )
