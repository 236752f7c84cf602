-- ===== src/Util.antt =====
-- Helpers of pkg/util: base62.go, sign.go, page.go, string.go, common.go, ip.go.
pub mod Base62
pub mod Sign
pub mod Sorted
pub mod Query
pub mod Substr
pub mod Ip
pub mod Addresses
pub mod Names
pub mod Random
pub mod Underscore
pub mod Page
pub mod Repeated
mod Tests
