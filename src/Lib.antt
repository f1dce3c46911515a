-- ===== src/Lib.antt =====
-- TableFS: a file system that keeps its metadata, and the data of small files, in LevelDB.
--
-- The parts and how they meet. A handler of the file system (src/fs/tablefs.cpp) looks a path up, one
-- component at a time: the key of a name is the number of its directory and the murmur hash of the
-- name; the dentry cache answers for directories that were looked up before, and the metadata table,
-- LevelDB behind an adaptor, for the others. With the key of the last component the handler asks the
-- inode cache for a handle, reads or changes the value behind it, and has it written back.
--
-- The files of this library:
--
--   Base, Base.*           shared names, lists, equality tests, association lists, bits, integers
--   Key                    src/fs/tfs_inode.h: inode numbers and the keys of the table
--   Hash, Hash.*           src/util/myhash.cpp: murmur64
--   Dentry, Dentry.*       src/fs/dcache.h, src/fs/dcache.cpp: the dentry cache
--   Value, Value.*         src/fs/tfs_inode.h and the helpers at the top of src/fs/tablefs.cpp: the
--                          value of an inode, GetInlineData to DropInlineData
--   Platform, Platform.*   what is taken from LevelDB and the C library, with its documented laws
--   Adaptor, Adaptor.*     src/adaptor/leveldb_adaptor.cpp: Get, Put, Sync, Delete, Write
--   Icache, Icache.*       src/fs/icache.h, src/fs/icache.cpp: the inode cache
--   Tfs                    src/fs/tablefs.h, src/fs/tfs_state.h: the state; InitStat, InitInodeValue,
--                          NewInode
--   Tfs.Path, Tfs.Path.*   src/fs/tablefs.cpp: ParentPathLookup and PathLookup
--   Tfs.Attributes         src/fs/tablefs.cpp: GetAttr, UpdateTimens, Chmod, Chown
--   Tfs.Renaming           src/fs/tablefs.cpp: Rename, OpenDir, ReleaseDir, Access
--   Tfs.Entries, Tfs.Links, Tfs.Making
--                          src/fs/tablefs.cpp: MakeNode, MakeDir, Symlink, Readlink, Unlink, RemoveDir
--   Tfs.Disk, Tfs.Content, Tfs.Closing, Tfs.Listing
--                          src/fs/tablefs.cpp: the files on the disk; Open, Read, Write; Fsync, Release,
--                          Truncate; ReadDir
--   Tfs.Inline             a file whose data is in the table, under Read and Write
--   Tfs.Blob, Tfs.Migrating, Tfs.Shrinking
--                          a file whose data is on the disk: the Write that moves it there, the
--                          Truncate that moves it back
--   Tfs.Durable            Release after Write
--   Tfs.Removal, Tfs.Moved what Unlink, RemoveDir and Rename do to the table
--   Tfs.Mounting, Tfs.Remounting
--                          src/fs/tfs_state.cpp: Setup and Destroy
--   Tfs.Safety, Tfs.Safety.*
--                          the handlers on paths with the inode cache as it is kept
--   Wrapper, Wrapper.*     src/fs/fswrapper.h, src/fs/fswrapper.cpp: descriptors over the handlers
--   Util, Util.*           src/util/properties.cpp, src/util/allocator.cpp,
--                          src/util/traceloader.cpp
--   Bench, Bench.*         src/fsbench.cpp: the threads of RunBenchmark, the order of the paths and the
--                          share of each thread, RandomPicker, the names that Run reads
--   Tests, Tests.*         concrete inputs, and a platform in memory
--
-- How the code is modelled. Numbers are natural numbers, with the wrap of a machine word written out
-- where the code can reach it; a path, a name or a buffer is the list of its bytes. A function that
-- can access freed memory or read past a buffer returns an option, and none stands for that access.
-- Results below 0 are the negated errno. A file on the disk is
-- named by the numbers that its path is printed from, those of an inode number cast to int as their
-- low bits. A system call may fail, and what the code makes of that is modelled. Mutexes are scopes over whole methods, so a method is one
-- step; the methods of InodeMutex take no lock and have no effect. The threads of the benchmark are
-- interleaved: a block under its mutex is one step, and so is each access without it. Debug and log
-- output is left out.
--
-- Loops on fuel. That of ParentPathLookup gets one more than the number of bytes of the path, which is
-- enough since each round passes a delimiter. That of Properties::load gets one more than the number
-- of bytes of the file, as each round but the last reads one. The loop of scanfile_filler may not end,
-- and takes its fuel as an argument. That of RandomPicker gets 31, enough for a range up to 2 ^ 31;
-- that of Run gets the length of the string, and that of a thread the bound of its numbers, as each
-- turn moves on. Sizes and offsets are taken to fit the types int and off_t.
--
-- Not modelled: LevelDB itself, a copy of another project (its operations are fields of a platform);
-- the C translation of the sources, which is unfinished; sockets, logging, the metrics of the monitor
-- and the front ends, which are input and output; the calls of the wrapper in the methods of the
-- benchmark; TableFS::Init and TableFS::Destroy.
pub mod Base
pub mod Key
pub mod Dentry
pub mod Hash
pub mod Value
pub mod Platform
pub mod Adaptor
pub mod Icache
pub mod Wrapper
pub mod Util
pub mod Tfs
pub mod Bench
mod Tests
