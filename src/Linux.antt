-- ===== src/Linux.antt =====
-- The port on Linux: include/serial_port/serial_port_linux_base.h and
-- src/serial_port_linux_base.cpp.
pub mod Termios
pub mod State
pub mod Os
pub mod Live
pub mod Port
pub mod Reader
pub mod Threads
pub mod Devices
pub mod Contract
pub mod Stream
