-- ===== src/Parsing.antt =====
-- backend/app/llm/parsers.py: the validation of the language model's answers.
pub mod Text
pub mod Json
pub mod Grading
pub mod Clamping
pub mod Answer
