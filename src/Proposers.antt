-- ===== src/Proposers.antt =====
-- src/recoup/baseline, src/recoup/reasoner/fallback.py and the control of src/recoup/runner/batch.py:
-- the proposers that need no model.
pub mod Naive
pub mod Portfolio
pub mod Fallback
