-- ===== src/Buffer/Contents.antt =====
-- Each operation of LuxPolaris/src/include/Buffer.h as one on the sequence of readable bytes.
pub mod Space
pub mod Queue
pub mod Filling
pub mod Searching
pub mod Network
