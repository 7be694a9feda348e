-- ===== src/Sacio.antt =====
-- sac-fs/src/sacio.c and file.c: the operations of the file system.
pub mod File
pub mod Tree
pub mod Data
pub mod Ends
pub mod Keeps
pub mod Loops
pub mod Contents
pub mod Listing
pub mod Removal
pub mod Rmdir
pub mod NewDirectory
pub mod Mkdir
pub mod Opening
pub mod NewFile
pub mod FileNode
pub mod Within
pub mod Endless
pub mod Renaming
pub mod Missing
pub mod Moved
