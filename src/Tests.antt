-- ===== src/Tests.antt =====
-- Examples: the theorems at concrete disks and nodes, and at concrete requests and answers.
mod Storage
mod Messages
mod Directories
mod Calls
mod Bitmap
mod Server
mod Tree
mod Removals
mod Changes
mod Endless
