-- ===== src/Libc.antt =====
-- What the program uses of the C library: strings, the binary tree of <search.h>, qsort.
pub mod Strings
pub mod Search
pub mod Qsort
