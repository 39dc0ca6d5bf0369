-- ===== src/Agents.antt =====
-- crates/atomr-accel-agents: the actors for agents, of which the embedding cache, the vector index, the retrieval pipeline, the write
-- coordinator and the node graph are modelled.
pub mod Embedding
pub mod Coordinator
pub mod Graph
pub mod VectorIndex
pub mod Rag
mod Examples
mod RagExamples
