-- ===== src/Utils.antt =====
-- The helpers of include/utils.h and src/utils.cpp.
pub mod Format
pub mod Numbers
pub mod Wide
pub mod Directory
