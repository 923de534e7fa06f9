-- ===== src/Lib.antt =====
-- Nebula FS: an archive file system in C++. This library models the parts that turn the program's
-- state into bytes and back, the two parsers of an archive with the reader of its
-- metadata, the directory tree, the table of chunks, the storage tiers, the search index, the
-- snapshots, and the write-ahead journal with its recovery.
--
-- The parts and their files:
--   Common, Outcome  shared names, lists and bits over the native numbers; the outcome of a C++
--     function: a value, a refusal (`std::nullopt`, an error), an exception, undefined behaviour.
--   VarInt  src/utils/VarInt.cpp. `encode`, `encode_into` (into a bounded buffer), `decode`,
--     `encoded_size` and the signed forms. Every format below is built on it.
--   Reader  the way the deserialisers walk through a span: an offset that wraps at 64 bits and the
--     bytes left, as src/search/PostingList.cpp and src/snapshot/*.cpp write it out. Reader/Laws says
--     of a reader that it reads back what a writer wrote, closed under sequencing and counted loops.
--   PostingList  src/search/PostingList.cpp, the documents of a search term.
--   Checksum  src/utils/Checksum.cpp, in the build without OpenSSL. SHA-256 is a parameter.
--   Journal  src/filesystem/JournalManager.cpp: Entry (the types), Manager (the operations), Calls
--     (the calls but `deserialize`, as steps), Wire (the binary form). Checkpoints, Sequence and
--     Integrity are about it.
--   Recovery  src/filesystem/Recovery.cpp, which analyses and replays a journal through the caller's
--     function, a parameter over a state of the caller's. Replay, Corrupt and Consistency are about it.
--   Snapshot  src/snapshot/*.cpp: Manifest (the nodes of a snapshot), Delta (the difference of two),
--     Patch (a manifest from its parent and a delta), Wire (the binary forms). Lookup says what the
--     operations of a manifest do to lookups, Applied and Reconstruct what a patch does. Manager is
--     SnapshotManager.cpp, the registry of manifests, with Registry about it.
--   Packed, Archive  the packed struct at the front of an archive, include/nebula/BinaryFormat.hpp,
--     and src/archive/ArchiveHeader.cpp about it. CRC-32 is a parameter.
--   StreamParser  src/parser/StreamParser.cpp, the parser that is fed an archive's bytes as they
--     arrive. It uses the header's parser; the readers of the sections are a record of operations.
--     A reader may also end in an exception or in undefined behaviour, which goes through the parser.
--     Rounds and Runs are about the loop, Chunks says how a call ends, Completion what becomes of a
--     whole archive. Local, Blind, Ends and Joined are about input that is cut into pieces.
--   DirectoryTree  src/filesystem/DirectoryTree.cpp: the tree and its paths, Wire (the binary form).
--     Below, Lookup, Count, Removal and Paths are about inserting, removing and normal forms.
--   Storage  src/storage/backend: the interface of a backend as a record of operations, Memory (the
--     backend in memory, with Memory/Laws about the interface) and Tiered (a hot and a cold backend).
--     Contents is about what blocks read as, Spilling about the loop that makes room.
--   Chunks  src/storage/ChunkManager.cpp: Table (of the rolling hash), the cutting of data into chunks
--     and the table of chunks; Cutting is about the former, Wire is the binary form of the table. The
--     hash of a chunk is a parameter.
--   Parsing  what the two parsers share: states, errors, the record of a result, and the readers of the
--     sections as a record of operations, each of which returns, with success or with an error that may
--     leave its object half read, or ends in an exception or in undefined behaviour.
--   Parser  src/parser/Parser.cpp, the parser of a span that holds the whole archive. Lockstep,
--     Agreement, Rounds, Stages and Whole run it beside the stream parser; Strictness compares its modes.
--   Metadata  src/metadata/MetadataStore.cpp (Store) and src/parser/MetadataParser.cpp (Parser), the
--     reader of the metadata section. Lookup is about the map, Returns and RoundTrip about the form
--     in bytes, Section about that form in an archive that Parser reads.
--   Search  src/search: Tokenizer (the terms of a text), with Pieces about it, and InvertedIndex
--     (documents under their terms, over PostingList), with Removal, Adding and Indexing about it. Wire
--     is the binary form of the index.
--
-- State is passed explicitly: an operation takes the object and returns the new one with its answer.
-- Numbers are natural numbers with the wrap-around of their type written out; bytes are numbers
-- below 256; a string is its list of bytes. Conditions of C++ that the machine always meets are
-- hypotheses: a value of a `uint64_t` is below 2 ^ 64, and so is the size of any span.
--
-- Bounds and fuel: `encoded_size_loop` has fuel 10, enough for every `uint64_t`; `encode` recurs on
-- the value by well-founded recursion; the loop of the stream parser has fuel 9, and its state
-- advances in every round that does not end it; a directory is read with one level of recursion for
-- each byte, and a level reads a byte at least; the loop that spills blocks has the length of its
-- queue as fuel, and every round takes a block off (Storage/Tiered/Spilling); the loops that cut data
-- into chunks have its size (Chunks/Cutting); the loop of the tokenizer has the length of the text
-- (Search/Pieces), that of the metadata store the length of the span (Metadata/Returns); that of the
-- metadata parser has the size of the section, and every entry moves its offset on. Everything else
-- is structural. The count of a vector that is
-- reserved is compared with the vector's largest size, a parameter; a larger one throws.
--
-- Not modelled: sockets, threads, locks and the command line; files and memory maps; the vendored
-- codecs and SHA-256; floating-point scores; texts of messages. The clock is an argument. The index
-- trees, the hash table, the archive's reader and writer and the
-- block and file layers of the storage are not modelled.
pub mod Common
pub mod Outcome
pub mod VarInt
pub mod Reader
pub mod PostingList
pub mod Checksum
pub mod Journal
pub mod Recovery
pub mod Snapshot
pub mod Packed
pub mod Archive
pub mod Parsing
pub mod StreamParser
pub mod DirectoryTree
pub mod Storage
pub mod Chunks
pub mod Parser
pub mod Metadata
pub mod Search
