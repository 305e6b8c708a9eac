-- ===== src/Lib.antt =====
-- TerpBuilder is an iOS app in which students put course sections together into a weekly schedule.
-- The app's own code is Swift, under Terp_Builder/Terp_Builder. The C, C++ and Objective-C code of
-- the repository is what the app ships with, under Terp_Builder/Pods: Firebase's database client,
-- its web socket, and LevelDB, in which the client keeps its data between runs. This library models
-- the schedule, and of the shipped code the base64 routines of the web socket's handshake and the
-- layers of LevelDB that fix how keys, numbers, updates, version edits, footers, filters, logs and
-- file names are stored, ordered and read, how a version searches its files, and the cache's table.
--
-- Schedule: Terp_Builder/Terp_Builder/Models/ScheduleModel.swift and Course.swift. ScheduleModel is
--   the object that the screens share, a record of its three published properties; addToSchedule,
--   checkConflict, checkLecture, checkDiscussion, removeFromSchedule and quickDelete are functions
--   from the state to the new state (add_to_schedule, check_conflict, ...). `none` is a trap: an
--   index out of range, or `!` on nil. The chain of tests on the days of a meeting, which the code
--   writes out once per function, is lecture_days. DateFormatter is Foundation's, so its date(from:)
--   is a parameter for each of the two formats. Apart and Check are about checkLecture, Conflict about
--   checkConflict, Gone about what the deletions take out of a list, Update and Removal about adding
--   and removing.
-- Below, LevelDB's paths are those under Terp_Builder/Pods/leveldb-library.
-- Slice: include/leveldb/slice.h. A slice is the list of its bytes; memcmp's int is its sign.
-- Comparator: include/leveldb/comparator.h as a record of operations, what it promises as the record
--   IsLawful, and util/comparator.cc as the instance that DbFormat's theorems can be used with.
-- Coding: util/coding.h and util/coding.cc. Fixed has the fixed-width words, with
--   port::kLittleEndian as a parameter; Varint the variable-length ones; Prefixed the
--   length-prefixed slices. A pointer with its limit is the list of the bytes between the two.
-- DbFormat: db/dbformat.h and db/dbformat.cc. Internal keys are written and read with Coding and
--   compared with a user Comparator. Keys has reading and writing, Order the order,
--   Separators the two shortening operations, Lookup the class LookupKey, Filter the filter
--   policy on internal keys, and Debug the debug strings.
-- Snapshot: db/snapshot.h. The nodes of the list lie in a heap, a function from addresses to nodes;
--   `new` and its address are a parameter of new_snapshot. Ring says when the nodes of a list of
--   addresses are linked, Operations what the class does to that list.
-- Status: include/leveldb/status.h and util/status.cc. A status is `ok`, or an error code with its
--   message.
-- WriteBatch: db/write_batch.cc and the headers it goes with. A batch is its string rep_; Put and
--   Delete are put_op and delete_op, and the handler that Iterate is given is the list of the calls
--   made of it. Layout says how a list of updates is laid out in the string, Iterate is about
--   reading it.
-- VersionEdit: db/version_edit.h and db/version_edit.cc, the changes that a manifest records. Total,
--   Entries, NewFiles, Header and RoundTrip are about EncodeTo and DecodeFrom; Debug is DebugString.
-- Format: table/format.h and table/format.cc, the handles of a table's blocks and its footer.
-- Logging: util/logging.cc, numbers and slices as text. FileName: db/filename.h and db/filename.cc,
--   the names of a database's files; Owned says which names there are, Made and Parse are about the
--   makers and ParseFileName.
-- Hash and Bloom: util/hash.cc and util/bloom.cc.
-- FilterBlock: table/filter_block.h and filter_block.cc. The policy of
--   include/leveldb/filter_policy.h is the record FilterPolicy, its promises the record IsPolicy;
--   Bloom.Policy has the Bloom filter as one. Builder, Calls and Placed are about the builder, whose
--   calls are a list of Call; Reader and Members about the reader on what the builder has written.
-- Env: include/leveldb/env.h. The files of the engine are the records WritableFile and SequentialFile,
--   the file system is the record Env of System, each over an unknown state, with what the header says
--   of them as laws (IsWriting, IsReading, IsFileSystem); IsFinite and IsSequential are laws of files
--   whose reads may fail.
--   Whole is util/env.cc's writing of a string as a file, which SetCurrentFile, in FileName.Current,
--   goes through; Text is its ReadFileToString, whose fuel is a parameter: a byte of the file is read
--   in each round but the last.
-- Log: db/log_format.h, with db/log_writer.cc in Writer and db/log_reader.cc in Reader. A Writer is
--   the state of its file and block_offset_; AddRecord is add_record, a round of its loop
--   add_fragment. A Reader is a record of its fields, the reporter's calls a list in it; ReadRecord is
--   read_record, a round of its loop read_round, ReadPhysicalRecord read_physical_record. Fragment is
--   about one physical record, Aligned about a reader at an offset in a block, Turns and Emits about
--   one round of each side, Rounds about a record, Session and RoundTrip about a log, Ends about
--   ReadRecord on any file.
-- Version: db/version_set.cc, the searches of a Version in its levels of files, for VersionEdit's
--   FileMetaData and DbFormat's order. FindFile is find_file, and the others have the names of the
--   source. Search is about the binary search, Levels about a level in order, Overlap about
--   SomeFileOverlapsRange, Inputs and Ranges about GetOverlappingInputs, Picked about
--   PickLevelForMemTableOutput. Bounds has what a lawful order carries over, Counts how many files
--   pass a test.
-- Cache: util/cache.cc, the class HandleTable with the source's names. Buckets is about one bucket,
--   Moving about arrays of buckets and what Resize moves, Table about the operations.
-- Random: util/random.h, the skip list's generator, with seed_ passed along.
-- Crc32c: util/crc32c.h, the masking of checksums.
-- Base64: Terp_Builder/Pods/FirebaseDatabase/FirebaseDatabase/Sources/third_party/SocketRocket/
--   fbase64.c. f_b64_ntop is ntop; f_b64_pton is pton, with its variables in the record Decoder. Table
--   is about the digits, Encode about f_b64_ntop, Decode about f_b64_pton on what that writes.
-- Base has the shared helpers: tests into Bool, lists over the native numbers, bit operations, and
-- loops that take bytes off the front of a string (Consume).
-- Tests applies the theorems to concrete inputs.
--
-- Most loops over bytes are recursion on the list; EncodeVarint64 and VarintLength recurse on the
-- accessibility of the number, which falls in each round. Other loops run on fuel. `run` of
-- Consume, the loop of Iterate and of DecodeFrom, has one more round than the input has bytes,
-- which is enough since each round but the last takes a byte; it gives `none` only out of fuel.
-- AddRecord has two more rounds than the record has bytes: a round writes a byte or more, but for
-- the one that may find place for a header only, and the one of an empty record. The fuel of
-- ReadRecord is a parameter; what the buffer and the file have left, and one more, is enough,
-- since a round takes a header or more from it. FindFile has one more round than there are files,
-- GetOverlappingInputs one more search than the files have ends, since each new search has a range
-- that reaches one end more. Resize doubles at most 32 times, which brings 4 beyond 2^31. The loop
-- of StartBlock has a round for each filter that is missing. A decimal number is written with at
-- most 20 digits, which a uint64 has. Unsigned words wrap around at 2^32 or 2^64 as written out.
-- Bytes are numbers, and where a theorem needs them below 256 it says so.
--
-- Not modelled: the app's screens, its network, location and notification models (glue to Apple's
-- frameworks), Firebase's Objective-C code, GoogleUtilities and Promises, and of LevelDB the
-- tables' blocks and iterators, the memtable, the building of versions, the rest of the cache, the
-- Posix environment and the database object. crc32c's Extend is a parameter. ReadBlock, the
-- wrapper class InternalKey beyond the assertion of its Encode, and the names of the comparators beyond a field are left out as well.
pub mod Base
pub mod Coding
pub mod Slice
pub mod Comparator
pub mod DbFormat
pub mod Schedule
pub mod Base64
pub mod Random
pub mod Crc32c
pub mod Snapshot
pub mod Status
pub mod WriteBatch
pub mod VersionEdit
pub mod Format
pub mod Logging
pub mod FileName
pub mod Hash
pub mod Bloom
pub mod FilterBlock
pub mod Env
pub mod Log
pub mod Version
pub mod Cache
mod Tests
