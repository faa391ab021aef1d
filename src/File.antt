-- ===== src/File.antt =====
-- The open-files table of a process and the system calls on it: lab8/kern/fs/file.c and file.h,
-- with the loops over a table of lab8/kern/fs/fs.c.
pub mod Table
pub mod Calls
pub mod Valid
pub mod Claim
pub mod Keeps
pub mod Life
mod Tests
