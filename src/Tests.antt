-- ===== src/Tests.antt =====
-- Concrete inputs and a simulated device, on which the theorems are applied.
mod Sorting
mod Devices
mod CliExamples
mod ApiExamples
mod ExtExamples
mod AppExamples
mod UpdateExamples
mod BundleExamples
mod Boards
mod RootfsExamples
mod DaemonExamples
mod DockerExamples
mod DownloadExamples
mod PruneExamples
mod ReportExamples
mod ComposeExamples
