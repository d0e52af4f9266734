-- ===== src/Rag.antt =====
-- backend/app/modules/rag: from the units of a loaded document to numbered chunks, and from a question
-- to the user's passages with numbered citations.
pub mod Chunks
pub mod Citations
pub mod Lexical
pub mod Tables
pub mod Retrieval
pub mod Stores
pub mod Documents
pub mod Passages
pub mod Pipeline
pub mod Ingestion
pub mod Listing
pub mod Tool
pub mod Embeddings
pub mod Loaders
pub mod Forgotten
pub mod Wired
