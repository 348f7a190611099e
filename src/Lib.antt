-- ===== src/Lib.antt =====
-- cstore_fdw, a columnar store for PostgreSQL as a foreign data wrapper.
--
-- A table is a data file of stripes and a footer file that lists them. A load
-- (`CStoreBeginWrite`, `CStoreWriteRow`, `CStoreEndWrite` in cstore_writer.c) collects rows in
-- column blocks, flushes a stripe when it has enough rows, and at its end replaces the footer file
-- by renaming a new one over it. Every stripe holds the skip lists of its columns (statistics of
-- each block, as protobuf messages), the presence bits and the values of every block, and a footer
-- with their sizes. A scan (`CStoreBeginRead`, `CStoreReadNextRow` in cstore_reader.c) takes the
-- stripes one by one, leaves out the blocks whose statistics refute the query's qualifiers, and
-- deserializes a block when its first row is asked for.
--
-- The parts, the files that model them, and the code:
--   Prelude, Result            lists, bits, integers, errors as values (`ereport(ERROR, ...)`).
--                              `fault` stands for undefined behaviour: an index out of bounds, a
--                              NULL that is followed, a division by 0.
--   BoolArray                  `SerializeBoolArray` (cstore_writer.c) and `DeserializeBoolArray`
--                              (cstore_reader.c): one function for each loop.
--   StringInfo                 the 1 GB limit of PostgreSQL's `enlargeStringInfo`.
--   Postgres, Datum            `SerializeSingleDatum` (cstore_writer.c), `DeserializeDatumArray`
--                              (cstore_reader.c), `DatumToProtobufBinary` and
--                              `ProtobufBinaryToDatum` (cstore_metadata_serialization.c). The
--                              macros of PostgreSQL's tupmacs.h are the parameter `TupleMacros`,
--                              and what is documented of them the hypotheses `TupleMacroLaws`.
--   Compression                cstore_compression.c, with pglz as the parameter `Pglz`.
--   CString, Options           `strncmp`, and the options of a table: `cstore_fdw_validator`,
--                              `CStoreGetOptions` and what they call (cstore_fdw.c). `pg_atoi` is
--                              a parameter.
--   Types                      the structures of a file (cstore_fdw.h).
--   Protobuf, Metadata         cstore_metadata_serialization.c. The code that protoc-c generates
--                              is the parameter `Protobuf`; `ProtobufLaws` says that a message of
--                              fitting fields is unpacked as it was packed.
--   Disk                       the files of a table, `WriteToFile`, `SyncAndCloseFile`
--                              (cstore_writer.c) and `ReadFromFile` (cstore_reader.c).
--                              Disk/Triples holds the rules for chains of calls.
--   FooterFile                 `CStoreWriteFooter` (cstore_writer.c) and `CStoreReadFooter`
--                              (cstore_reader.c).
--   SkipNode                   `UpdateBlockSkipNodeMinMax` and `DatumCopy` (cstore_writer.c).
--   Writer                     the rest of cstore_writer.c: Writer/Column the bodies of its loops
--                              over columns, Writer/Blocks its loops over blocks, Writer/Flush
--                              `FlushStripe`, Writer/Rows `CStoreBeginWrite`, `CStoreWriteRow` and
--                              `CStoreEndWrite`, and the loop of `CopyIntoCStoreTable`
--                              (cstore_fdw.c) over the rows. Writer/Safety is about the files that a
--                              load leaves, Writer/Invariant about its arrays and blocks, and
--                              Writer/Commit about its end.
--   Reader                     cstore_reader.c: Reader/Columns the arrays with an entry for each
--                              column, Reader/Constraints the constraint on a column that a block's
--                              minimum and maximum give, Reader/Selection the choice of the blocks
--                              to read, Reader/Loading what is read from the files, Reader/Blocks
--                              the values of a block, Reader/Rows `CStoreBeginRead` and
--                              `CStoreReadNextRow`, with Reader/Rows/Reference as the loops that
--                              they unroll. The catalogs and the planner of PostgreSQL are the
--                              parameter `Planner`, and what is documented of them the hypotheses
--                              `PlannerLaws`.
--   TableFiles                 `DeleteCStoreTableFiles`, `InitializeCStoreTableFile` and what
--                              `TruncateCStoreTables` does to one table (cstore_fdw.c).
--   Directories                `CreateCStoreDatabaseDirectory` and `RemoveCStoreDatabaseDirectory`
--                              (cstore_fdw.c), with the system calls as the parameter `FileSystem`.
--   Trigger                    `cstore_ddl_event_end_trigger` (cstore_fdw.c), over the files of a
--                              table and the directories together.
--   Executor                   Executor/Columns `ColumnList`, Executor/Sample the columns and the
--                              sampling of `CStoreAcquireSampleRows` (cstore_fdw.c), with the random
--                              choices as the parameter `Random`.
--   Utility                    `CStoreProcessUtility` and what it asks about tables (cstore_fdw.c),
--                              with the catalogs of PostgreSQL as the parameter `Catalog`. A statement
--                              gives the log of what was done for it, up to an error.
--
-- Numbers are natural numbers, with the wrap-around of a `uint32` or `uint64` written out where a
-- result may exceed it; an `int32` that may be negative is an integer. Memory is the list of bytes
-- from a pointer on. A file is a list of bytes, or absent. The field `credit` of the disk counts the
-- calls that change a file and still succeed; a theorem for every disk covers a failure at every
-- call. Strings that would reach 1 GB are an error, and other allocations succeed. All loops are
-- structural recursion over the array or the number of rounds, and none needs
-- fuel; `scan` counts the calls of `CStoreReadNextRow` that a caller makes.
--
-- Not modelled: in cstore_fdw.c, the default path and the size of a table's files,
-- COPY TO behind its check (a SELECT that PostgreSQL runs), the cost estimates of paths
-- (floating point), and the callbacks that only call the reader, the writer and PostgreSQL's
-- executor; memory contexts and what is freed when; and builds for PostgreSQL before 9.5.
pub mod Prelude
pub mod Result
pub mod BoolArray
pub mod Postgres
pub mod StringInfo
pub mod Datum
pub mod Compression
pub mod CString
pub mod Options
pub mod Types
pub mod Protobuf
pub mod Metadata
pub mod Disk
pub mod FooterFile
pub mod SkipNode
pub mod Writer
pub mod Reader
pub mod Executor
pub mod TableFiles
pub mod Directories
pub mod Trigger
pub mod Utility
mod Tests
