-- ===== src/Drm.antt =====
-- kmods-src/prl_vid/Video/Guest/Linux/kmod/prldrm.c: the display driver's buffers and the images that
-- processes share.
pub mod Aperture
pub mod Image
pub mod Gem
pub mod Dirty
pub mod Head
pub mod Shared
pub mod Faults
