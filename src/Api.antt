-- ===== src/Api.antt =====
-- internal/api: the HTTP handlers.
pub mod Http
pub mod LoggingHelpers
pub mod Handler
pub mod Errors
pub mod Effects
pub mod Calls
pub mod Keys
pub mod TokenStore
pub mod Oauth
pub mod Bearer
pub mod Wif
pub mod Sessions
pub mod Devices
pub mod Users
pub mod Policy
pub mod Endpoints
pub mod Router
pub mod Metrics
