-- ===== src/Tools.antt =====
-- include/dumbo/v1/tools: the string buffer, the texts of errors, and the latch.
pub mod StringBuffer
pub mod Latch
pub mod Perror
