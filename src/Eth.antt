-- ===== src/Eth.antt =====
-- kmods-src/prl_eth: the network driver, pvmnet.c with the rings of pvmnet_hw.h.
pub mod Ring
pub mod Driver
pub mod Probe
