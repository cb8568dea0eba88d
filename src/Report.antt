-- ===== src/Report.antt =====
-- report/model.py and ci/model.py: the verdict of a file, of a run, and the exit codes.
pub mod Model
