-- ===== src/Lib.antt =====
-- The SAC file system: a file system in one disk file, a server that works on it for its clients,
-- and a FUSE client that turns system calls into requests. The three programs are
--   FileSystem/sac-fs    the storage library: blocks, bitmap, nodes, directories, files;
--   FileSystem/mtserver  the server, and the protocol that it shares with the client;
--   FileSystem/sac-cli   the FUSE client.
-- A system call becomes a `t_function`, which is serialized to a `t_package`, sent over a socket,
-- read and deserialized by the server, executed on the disk, and answered with a package.
--
-- Files, from the storage up (paths without the common FileSystem/):
--   Base, Memory     Boolean tests and list functions; bytes, memcpy, strings in memory.
--   Platform         what the sources take from outside the repository (see below).
--   Disk             sac-fs/src/disk.h and block.c: the geometry, the globals `disk_fd` and `bitmap`
--                    as the record `Fs`, how a call ends (`Run`), mapped blocks. Runs, Ends and
--                    Keeps: laws of commands, of commands that end, and of those that keep a
--                    property of the bitmap.
--   Bitmap           sac-fs/src/bitmap.c; theorems in Bitmap/Alloc.
--   Node             sac-fs/src/node.c, t_node, node_to_block and block_to_node of utils.c;
--                    theorems in Node/Blocks (nodes and their blocks), Node/Slots (the elements
--                    of pointers blocks) and Node/Ends.
--   Directory        sac-fs/src/directory.c. Entry: entries and the position of the next one;
--                    Iterate: the three nested loops over a directory, with a visitor; Path: the
--                    lookup of a path and its pieces; Update: adding and removing entries;
--                    theorems in Block, Lookup, Added and Full, against a list of names and
--                    node numbers, and in Ends. Scan, Entries, Found, Deleted and Listed: a
--                    directory of one data block under any visitor, its search, deletion and
--                    listing; Tree, Visited, Walk, Erased, Grown and Fresh: the abstract tree of
--                    directories that a disk holds, the walk along a path, and the tree when an
--                    entry is deleted from a directory or added to it, or a directory is made.
--   Sacio            sac-fs/src/sacio.c and file.c. File: open, close, stat, remove;
--                    Tree: mkdir, rmdir, readdir, rename; Data: read, write and truncate;
--                    theorems in Loops, Contents, Within, Endless, Ends and Keeps, and, against the
--                    abstract tree, in Listing (readdir), Removal and Rmdir, NewDirectory and
--                    Mkdir, Opening, FileNode and NewFile (open), Renaming, Moved and Missing (rename).
--   Status           the return values of sacio.c, 0 and more or negative.
--   Format           format_disk of sac-fs/src/disk.c with header, bitmap and root directory of
--                    utils.c, and load_bitmap of sac.c; the stored bitmap in Format/Stored.
--   Identifier       the message ids of mtserver/src/serialization.h.
--   Package          `t_package`, `t_function`, and copies into and out of heap blocks.
--   Protocol         mtserver/src/serialization.c. Serialize and Deserialize: one function for each
--                    request; Strings, PathNumber, Paths and Numbers: theorems on round trips;
--                    Trim and Sendable: what of a package reaches the other side.
--   Wire             send_package and receive_package, on the bytes of a stream; theorems in
--                    Wire/Stream.
--   Request          the cases of `execute` in mtserver/src/server.c as a data type of requests.
--   Server           Response: mtserver/src/fs_sac.c, the answers; Execute: server.c, from the bytes
--                    that come in to the answer; Threads: the list of the connection threads in
--                    server.c, as a step relation, with theorems in Threads/Removal, Threads/Bound
--                    and Threads/Stale; Ends and Keeps: theorems on the requests.
--   Local            mtserver/src/fs_local.c: the same operations on the file system of the machine.
--   Client           sac-cli/src/client.c: send_function, for a server at the other end of the
--                    socket, which may be the one of Server; Client/Exchange: a call and its answer.
--   Fuse             sac-cli/src/fuse.c: what the client reads from an answer, with theorems in
--                    Fuse/Answers and Fuse/Listing; Callbacks: the callbacks of the mounted file
--                    system, as calls of Client; Calls, Effects, Data and Reading: theorems on a
--                    callback from the client to the disk of the server and back.
--   Start            how sac-fs/src/sac.c and sac-cli/src/fuse.c take their arguments.
--   Sample, Tests    a platform for examples, and the theorems at concrete inputs.
--
-- How the code is read:
--   * A function of the storage is a command, `Fs → Run A`. `ok` is a return, `exited` a call of
--     exit(), `fault` what C leaves undefined: an access outside an object, a mapped block or the
--     disk file, and an int that overflows. `out_of_fuel` stands for a loop that goes on when the
--     rounds given to it are used up, which only the loops of sac_rmdir and sac_truncate can do.
--   * Blocks are mapped with MAP_SHARED, so a pointer to a block is the number of the block, and a
--     write through it is a change of the disk. A node in memory is a value, and a function that
--     changes it in place returns the new one.
--   * An int is its pattern of 32 bits, compared in the order of the ints; a u_int32_t returned as an
--     int keeps its pattern. An offset is an off_t that is not negative, of at most 32 bits.
--   * Numbers are natural numbers, reduced by `% 2 ^ w` where a variable of w bits takes them.
--     Memory is a function from addresses to bytes, little-endian; an object with a size that the
--     code can exceed carries it. Strings are lists of bytes without the 0 at the end.
--   * memcpy copies from the old contents; the code has one overlapping memcpy, when an entry is
--     taken out of a directory, which C leaves undefined and which is read as a memmove.
--   * In the protocol and the client, `none` is an access outside an object.
--   * A list of commons/collections is a List; where a place outside it is used, as in the server's
--     thread list, the operations are a parameter (Commons) with named laws.
--   * The abstract tree is a function from node numbers to directories: the parent's block, the list
--     of entries, and the two blocks that hold them. A disk holds it where the node of each of its
--     directories is in the node table and the entries, fewer than 32, stand in one data block.
--   * For the thread list, the server's threads are steps in any order, each of which runs with the
--     mutex held or between two such parts. On the disk, a request runs to its end before the next
--     one begins.
--
-- Parameters, in Platform: the bit arrays and strings of so-commons-library, the sizes of a
-- pointer and of an off_t, the clock, and what fresh memory holds. `BitLaws` names the behaviour
-- that the library documents for bits, and Sample shows that it can hold. What the theorems on
-- paths need of the library's strings is a hypothesis of each: how the library splits the given
-- path and the part of it in front of the last component. The lists of the library are a
-- parameter of Server/Threads, with laws (CommonsLaws) that Tests/Server shows can hold. The
-- calls of the operating system that fs_local.c makes are a parameter of Local, over a state of
-- their own. The configuration files are a parameter of Start.
--
-- Bounds and fuel: the loops over the bits of the bitmap, the pointers of a node, the elements of a
-- pointers block to free and the names of a listing recurse on their count. The others take fuel:
--   * the loops over a directory 34 rounds for the bytes of a block (32 entries, a round that reads
--     behind them, one that stops), 1025 for a pointers block and 1001 for a node's 1000 pointers;
--   * those of sac_read and sac_write one round for each byte, and that of sac_truncate one for each
--     byte of the file, and one more, since each round moves on by a byte at least. A truncation to
--     2 ^ 31 bytes or more is no such case: its length is negative as an int, and the loop may change
--     nothing (Sacio/Endless);
--   * the loop of sac_rmdir over its list 33 rounds: the directory is empty when it comes to it, and one
--     round is enough then (Sacio/Rmdir). On a damaged disk the list can grow for ever;
--   * the loop of do_readdir one round for each byte of the package, and one more.
-- Where a theorem says that a call returns, it says so with this fuel.
--
-- Not modelled: main, the reading of a configuration file and of the options, which libraries
-- do, the creation of the disk file (shell commands), sockets, finish_server and
-- wait_connection_threads, which come after an endless loop, requests that run at the same time
-- on the one disk, logging and printing, the registration of the FUSE callbacks, and the
-- scripts.
pub mod Base
pub mod Memory
pub mod Platform
pub mod Disk
pub mod Bitmap
pub mod Node
pub mod Directory
pub mod Status
pub mod Sacio
pub mod Format
pub mod Identifier
pub mod Package
pub mod Protocol
pub mod Wire
pub mod Request
pub mod Server
pub mod Local
pub mod Client
pub mod Fuse
pub mod Start
mod Sample
mod Tests
