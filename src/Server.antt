-- ===== src/Server.antt =====
-- internal/rtc/server.go: the checks of NewServer, validateOffer, the log metadata, and NewSession
-- with the WebRTC library as its environment.
pub mod Offer
pub mod Creation
pub mod Metadata
pub mod Options
