-- ===== src/Lib.antt =====
-- HBF: a web server in one binary, with its files in SQLite and its handlers in JavaScript.
--
-- The build packs a pod's files into a bundle (tools/asset_packer.c). At the start the bundle is
-- migrated into the versioned file system (hbf/db/overlay_fs.c) over the tables of
-- hbf/db/overlay_schema.sql, from which all later reads come. A request runs hbf/server.js from
-- there in a QuickJS context of its own (hbf/http/handler.c) and sends the response that it filled
-- (hbf/qjs/bindings/response.c).
--
-- Base: bytes, C strings, lists, Boolean tests and bit operations that all parts share.
-- Overlay: the file system. Overlay/Schema has the tables and the statements, Overlay/Write
--   `overlay_fs_write`, Overlay/Read the reads and the global handle,
--   Overlay/Opening `overlay_fs_init`. Overlay/History is the well-formedness of the tables,
--   Overlay/Tables what the statements give on it,
--   Overlay/Effects and Overlay/Outcome what a write does, Overlay/ReadBack the reads after it,
--   Overlay/Total when it completes, Overlay/Runs sequences of writes against an abstract file
--   system; Migrate/Runs shows the migration's loop to be such a sequence.
-- Sha256: the code of hbf/db/overlay_fs.c and hbf/shell/hash.c; Sha256/Padding is the standard.
-- DnsHash: `hbf_dns_safe_hash` of hbf/shell/hash.c.
-- Packer: tools/asset_packer.c, with the words of its format in Packer/Words.
--   Packer/Order is the order of the entries, Packer/Source the generated C text, Packer/Constants
--   and Packer/Reading how it is read, Packer/Program `main` with its arguments and stages.
-- Migrate: `overlay_fs_migrate_assets` with the parser, the loop and the transaction;
--   Migrate/BundleId is the form of a bundle's id.
-- DbInit: `hbf_db_init` of hbf/db/db.c, which applies the schema and migrates the bundle.
-- DbRead: the reads of hbf/db/db.c from the view `latest_files`.
-- Server: hbf/http/server.c, the static files and the health check.
-- Config: hbf/shell/config.c; Config/Levels is the level that a command line asks for.
-- Log: hbf/shell/log.c, with what it has printed.
-- Main: hbf/shell/main.c, what is started and stopped.
-- Modules: hbf/qjs/module_loader.c.
-- Handler: `hbf_qjs_request_handler` of hbf/http/handler.c as the trace of what it does to its
--   resources and to the connection; Handler/Audit says which traces are allowed,
--   Handler/Workers is the threads of the web server, which interleave such traces under the mutex.
-- Request: `hbf_qjs_create_request` of hbf/qjs/bindings/request.c.
-- Response: hbf/qjs/bindings/response.c, its methods and the reply that `hbf_send_response` writes.
-- Engine: hbf/qjs/engine.c, evaluation with its error text and time limit, and what a context owns.
-- Console: hbf/qjs/console_module.c, the messages with what is allocated for them and how they are
--   printed; Console/Configured goes from the command line to what is printed.
-- DbModule: `db.query` and `db.execute` of hbf/qjs/db_module.c.
-- Delivery: the packer, the generated source, the start of the database (Delivery/Start) and a
--   request in sequence; Handler/Answers is the request of which all calls succeed.
-- Tests: the code on concrete inputs.
--
-- Every outcome of SQLite, of an allocation and of the file system that the code looks at is a
-- Boolean or an Option that the operation takes, so each theorem speaks of every combination of
-- failures. SQLite's tables are lists of rows, newest first, and a statement is a function on them
-- that fails where a constraint of the schema does; closing a connection drops an open transaction.
-- The rollback that SQLite itself makes on some I/O and memory errors of a statement is left out, and
-- so is the memory that the packer frees.
-- zlib and `qsort` are parameters; their laws are hypotheses where a theorem needs them. A number
-- beyond a C `int` ends a run in an outcome of its own that stands for what is not modelled. Loops
-- are structural on the list or the count that they run over; the digits of a number are printed
-- with fuel 20, which is enough below 10 ^ 20. A text is a list of bytes without its NUL.
--
-- Not modelled: the vendored libraries, JavaScript, the log lines of the C code, and the parts
-- listed in the manifest as such.
pub mod Base
pub mod Overlay
pub mod Sha256
pub mod DnsHash
pub mod Packer
pub mod Migrate
pub mod DbInit
pub mod DbRead
pub mod Handler
pub mod Request
pub mod Response
pub mod Server
pub mod Config
pub mod Log
pub mod Main
pub mod Modules
pub mod Engine
pub mod Console
pub mod DbModule
pub mod Delivery
pub mod Tests
