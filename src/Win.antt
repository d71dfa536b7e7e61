-- ===== src/Win.antt =====
-- The port on Windows: include/serial_port/serial_port_win_base.h and
-- src/serial_port_win_base.cpp.
pub mod State
pub mod Os
pub mod Dcb
pub mod Port
pub mod Stream
pub mod Reader
pub mod Contract
pub mod Devices
pub mod Threads
