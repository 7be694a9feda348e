-- ===== src/Server.antt =====
-- mtserver/src/fs_sac.c and server.c: the server's answers, and the choice of the operation.
pub mod Response
pub mod Ends
pub mod Execute
pub mod Keeps
pub mod Threads
