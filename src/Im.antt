-- ===== src/Im.antt =====
-- The client of the WuKongIM server and the messages that the library sends through it: config/msg.go,
-- config/msg_group.go, config/msg_channel.go, config/msg_rtc.go, config/stream.go, common/msg.go.
pub mod Json
pub mod Message
pub mod ContentType
pub mod Setting
pub mod Request
pub mod Client
pub mod Send
pub mod Admin
pub mod Group
mod Tests
