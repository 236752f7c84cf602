-- ===== src/Config.antt =====
-- config/config.go: the configuration of a server, its defaults, and how it is read from viper and
-- from the environment. (Its ids and paths are in Channel.)
pub mod Services
pub mod Groups
pub mod Types
pub mod Constants
pub mod Viper
pub mod Env
pub mod DefaultGroups
pub mod Defaults
pub mod Plain
pub mod PlainServices
pub mod Urls
pub mod Log
pub mod Configure
pub mod Again
pub mod Fallbacks
pub mod Unset
mod Tests
