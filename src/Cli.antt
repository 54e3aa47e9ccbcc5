-- ===== src/Cli.antt =====
-- The command line interface (src/cli/cli.cc, include/aktualizr-lite/cli/cli.h): the exit codes and
-- the commands, over the client's operations. What the commands print and log is left out.
pub mod Codes
pub mod Client
pub mod Commands
pub mod ExitCodes
pub mod Gates
