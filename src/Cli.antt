-- ===== src/Cli.antt =====
-- What the command line of apps/cli/src writes into the configuration files of other programs.
pub mod Json
pub mod JsonFile
pub mod McpConfig
