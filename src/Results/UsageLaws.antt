-- ===== src/Results/UsageLaws.antt =====
-- Bounds on the usage of a volume (`Volume::getUsageInfo` of src/storage/stat.cc).
