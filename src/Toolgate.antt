-- ===== src/Toolgate.antt =====
-- kmods-src/prl_tg: the toolgate driver, which carries requests from the guest to the host.
pub mod Wire
pub mod Size
pub mod Queue
pub mod Build
pub mod Request
pub mod User
pub mod Device
