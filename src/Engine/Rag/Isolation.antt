-- ===== src/Engine/Rag/Isolation.antt =====
-- app/engine/rag.py: what a search depends on, and what a deletion leaves.
use mathlib.Core.Option.{some-injective}
use agentstrata.Engine.Rag.Store.{
  ChunkHit, MemoryRagStore, StoredChunk, Vectors, add_hit, delete_principal, drop_chunks, hits_of,
  owned_chunk, ranked, search, sort_hits, text_eq,
}
use agentstrata.Prelude.{
  All, Bool, Bool-cases, List, Option, [], ap, arith, if◌then◌else◌, inl, inr, keep_if, length,
  length-take, none, not, refl, some, subst, suc, sym, take, true, zero, ℕ, ◌∙◌, ◌∷◌, ◌≡◌, ◌≤◌,
}
use agentstrata.Prelude.Dict.{Dict}
use agentstrata.Text.{Text}

module _ (vectors : Vectors) where
  -- The chunks of an owner, with their keys.
  abbrev pub chunks_of : Text → Text → MemoryRagStore vectors → Dict Text (StoredChunk vectors)
  chunks_of agent_name principal_id s =
      keep_if (λ (e : Text × StoredChunk vectors). owned_chunk vectors agent_name principal_id e.1)
        s.chunks

  hits_of-keep_if :
      (a p model : Text) (q : vectors.Vector) (chunks : Dict Text (StoredChunk vectors))
      → hits_of vectors a p model q
          (keep_if (λ (e : Text × StoredChunk vectors). owned_chunk vectors a p e.1) chunks)
        ≡ hits_of vectors a p model q chunks
  unfolding hits_of keep_if
  hits_of-keep_if a p model q [] = refl
  hits_of-keep_if a p model q ((k, c) ∷ chunks) = elim (Bool-cases (owned_chunk vectors a p c)) [
    | inl e ↦ rw e (
        rw e (
          ap
            (λ o.
              if text_eq c.embedding_model model
              then add_hit vectors c (vectors.cosine q c.embedding) o
              else o)
            (hits_of-keep_if a p model q chunks)))
    | inr e ↦ rw e (hits_of-keep_if a p model q chunks)
  ]

  -- A search for an owner depends on that owner's chunks alone: two stores that hold the same
  -- chunks of the owner answer it alike.
  pub search-isolated :
      (a p model : Text) (q : vectors.Vector) (top_k : ℕ) (min_score : vectors.Score)
      (s t : MemoryRagStore vectors)
      → chunks_of a p s ≡ chunks_of a p t
      → search vectors a p q model top_k min_score s ≡ search vectors a p q model top_k min_score t
  unfolding search
  search-isolated a p model q top_k min_score s t h = ap (ranked vectors top_k min_score) (
      sym (hits_of-keep_if a p model q s.chunks)
      ∙ ap (hits_of vectors a p model q) h
      ∙ hits_of-keep_if a p model q t.chunks)

  hits_of-dropped :
      (a p model : Text) (q : vectors.Vector) (chunks : Dict Text (StoredChunk vectors))
      → hits_of vectors a p model q
          (keep_if (λ (e : Text × StoredChunk vectors). not (owned_chunk vectors a p e.1)) chunks)
        ≡ some []
  unfolding hits_of keep_if
  hits_of-dropped a p model q [] = refl
  hits_of-dropped a p model q ((k, c) ∷ chunks) = elim (Bool-cases (owned_chunk vectors a p c)) [
    | inl e ↦ rw e (hits_of-dropped a p model q chunks)
    | inr e ↦ rw e (rw e (hits_of-dropped a p model q chunks))
  ]

  -- Once a principal is deleted, no search for it finds anything, and no search for it raises.
  pub search-delete_principal :
      (a p model : Text) (q : vectors.Vector) (top_k : ℕ) (min_score : vectors.Score)
      (s : MemoryRagStore vectors)
      → search vectors a p q model top_k min_score (delete_principal vectors a p s).1 ≡ some []
  unfolding search ranked delete_principal drop_chunks sort_hits keep_if
  search-delete_principal a p model q top_k min_score s =
      ap (ranked vectors top_k min_score) (hits_of-dropped a p model q s.chunks)
      ∙ ap
          (λ hits.
            some (keep_if (λ (h : ChunkHit vectors). vectors.at_least h.score min_score) hits))
          (nothing top_k)
    where
      nothing : (n : ℕ) → take {A = ChunkHit vectors} n [] ≡ []
      nothing zero = refl
      nothing (suc n) = refl

  All-keep_if :
      (p : ChunkHit vectors → Bool) (hits : List (ChunkHit vectors))
      → All (λ h. p h ≡ true) (keep_if p hits)
  unfolding keep_if
  All-keep_if p [] = tt
  All-keep_if p (h ∷ hits) = elim (Bool-cases (p h)) [
    | inl e ↦ rw e (e, All-keep_if p hits)
    | inr e ↦ rw e (All-keep_if p hits)
  ]

  length-keep_if-le :
      (p : ChunkHit vectors → Bool) (hits : List (ChunkHit vectors))
      → length (keep_if p hits) ≤ length hits
  unfolding keep_if
  length-keep_if-le p [] = omega arith
  length-keep_if-le p (h ∷ hits) = ground (arith, length-keep_if-le p hits)

  abbrev IsRanked : ℕ → vectors.Score → List (ChunkHit vectors) → Type 0
  IsRanked top_k min_score hits =
      (length hits ≤ top_k) × All (λ h. vectors.at_least h.score min_score ≡ true) hits

  ranked-IsRanked :
      (top_k : ℕ) (min_score : vectors.Score) (found : Option (List (ChunkHit vectors)))
      (hits : List (ChunkHit vectors))
      → ranked vectors top_k min_score found ≡ some hits
      → IsRanked top_k min_score hits
  unfolding ranked
  ranked-IsRanked top_k min_score none hits h = absurd cc
  ranked-IsRanked top_k min_score (some found) hits h =
      let p : ChunkHit vectors → Bool = λ hit. vectors.at_least hit.score min_score in
      let best = take top_k (sort_hits vectors found) in
      subst (IsRanked top_k min_score) (some-injective (keep_if p best) hits h) (
        omega (arith, length-keep_if-le p best, length-take top_k (sort_hits vectors found)),
        All-keep_if p best,
      )

  -- A search that returns has at most `top_k` hits, and none of them below the minimum score.
  pub search_bounds :
      (a p model : Text) (q : vectors.Vector) (top_k : ℕ) (min_score : vectors.Score)
      (s : MemoryRagStore vectors) (hits : List (ChunkHit vectors))
      → search vectors a p q model top_k min_score s ≡ some hits
      → (length hits ≤ top_k) × All (λ h. vectors.at_least h.score min_score ≡ true) hits
  unfolding search
  search_bounds a p model q top_k min_score s hits h =
      ranked-IsRanked top_k min_score (hits_of vectors a p model q s.chunks) hits h
