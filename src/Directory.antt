-- ===== src/Directory.antt =====
-- sac-fs/src/directory.c, and the functions of sac-fs/src/utils.c on paths and parent entries. A
-- string is the list of its bytes before the terminator, so `name[0] != '\0'` is a list that is not
-- empty.
pub mod Ends
pub mod Entry
pub mod Iterate
pub mod Path
pub mod Update
pub mod Block
pub mod Scan
pub mod Entries
pub mod Found
pub mod Deleted
pub mod Listed
pub mod Tree
pub mod Visited
pub mod Walk
pub mod Erased
pub mod Grown
pub mod Fresh
pub mod Lookup
pub mod Added
pub mod Full
