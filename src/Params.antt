-- ===== src/Params.antt =====
-- The port's parameters and their check: include/serial_port/serial_port_interface.h,
-- include/serial_port/serial_port_params.h and src/serial_port_params.cpp.
pub mod Enums
pub mod Props
pub mod Check
