-- ===== src/Poa/Editor.antt =====
-- src/subllm/poa/process_editor.py: edits that a process document admits, as a proposal.
pub mod Document
pub mod Propose
pub mod Applied
pub mod Controls
pub mod Pointer
pub mod Authority
mod Tests
