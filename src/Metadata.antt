-- ===== src/Metadata.antt =====
-- internal/metadata: what the machine's user-data asks for.
pub mod Plan
pub mod Document
pub mod Source
