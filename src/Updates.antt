-- ===== src/Updates.antt =====
-- `LiteClient` of src/liteclient.cc and the installation log of src/helpers.cc.
pub mod Log
pub mod Steps
pub mod LogLaws
pub mod StepsLaws
pub mod Marking
pub mod Reports
pub mod ReportLaws
