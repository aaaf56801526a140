-- ===== src/Engine/Rag.antt =====
-- app/engine/rag.py: chunking, the in-memory store, retrieval and ingestion.
pub mod Chunks
pub mod Store
pub mod Retriever
pub mod Covering
pub mod Isolation
mod Examples
