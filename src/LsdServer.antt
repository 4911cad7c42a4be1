-- ===== src/LsdServer.antt =====
-- lsdserver/api/license_status.go: the handlers of the License Status Server.
pub mod Links
pub mod Common
pub mod Document
pub mod Register
pub mod Return
pub mod Renew
pub mod Extend
pub mod Cancel
pub mod Filter
pub mod Count
pub mod Routes
pub mod Fresh
pub mod Keeps
