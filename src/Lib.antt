-- ===== src/Lib.antt =====
-- Vaultine, a vault for secrets: users, each with a key encryption key (KEK), and the secrets that are
-- encrypted under it, in an SQLite database.
--
-- The C interface (src/ssm.cc) checks its arguments, looks the user up, opens his KEK and encrypts or
-- decrypts with it, and writes an audit entry. It calls src/kek/kek.cc for the KEK, src/db/*.cc for the
-- statements on the database, src/crypto/*.cc for the ciphers, src/backup/backup.cc and
-- src/export/export.cc for files. Each public function runs under the lock of the handle, so here it is
-- one step after another.
--
-- Prelude holds the shared names, lists and byte strings. World is the state: the tables of
-- src/db/database.cc, the handle with its cache, and Env, the foreign code (SQLite's errors, OpenSSL,
-- libsodium, the clock), with IsLawful for what is relied on of it. Exec is the monad of functions that
-- change the vault and may return early; Exec/Runs, Exec/Sure and Exec/Stays are the rules for what they
-- ensure and keep.
-- Memory models src/utils/secure_memory.h: blocks of locked memory and the owners that erase and free
-- them, with what a program may do with them as a step relation. Elsewhere a buffer is its bytes.
-- Crypto models src/crypto; Db and its children src/db, with the SQL statements as functions on the
-- tables in Db/Sql; Kek models src/kek/kek.cc; Cache the wrapping key cache of src/ssm.cc; Ssm and its
-- children the public functions of src/ssm.cc; Backup src/backup; Export src/export; Hex
-- cli/hex_utils.h. Ssm/Handle models the functions of src/ssm.cc that open, close, save and replace the
-- database, and the connection of src/db/database.cc; the format of a database file is a parameter, the
-- record Disk. Server models cli/ssm_server.cc: requests and replies, the routes in Server/Route, the
-- handlers in Server/Users, Server/Secrets and Server/Admin, request_handler in Server/Dispatch, and
-- requests one after another in Server/Requests. jsoncpp is a parameter, the record JsonCpp: the event
-- loop of libevent hands a request over as a record. Functions have the names of the source. Reveal is
-- the abstract view: the map from a user's name and a secret's name to the private key. Sound is the
-- invariant that the constraints of the schema keep, and Ssm/Calls a sequence of calls of the public
-- functions, with their specification on that map in Ssm/Calls/Spec. Scenario is a small vault with
-- ciphers to run it.
--
-- A C string is its bytes without the terminator; a buffer with its length is a byte string; a pointer
-- that may be null is an Option. Loops are recursions on lists, so no fuel is needed, except for the
-- decimal digits of a number, which have 20 rounds: a 64-bit number has no more digits. Ids, versions,
-- times and lengths are natural numbers: AUTOINCREMENT refuses to go beyond 2 ^ 63, and the others stay
-- below it. Lengths that the source casts to int, those of a text for the ciphers
-- (src/crypto/aes_gcm.cc) and of a blob for SQLite (src/db/secrets.cc, src/kek/kek.cc), are taken to be
-- below 2 ^ 31: a secret is in locked memory, and for a database file that is backed up it is a
-- hypothesis.
--
-- Not modelled: a null handle, null pointers for the private key that ssm_secret_get delivers and for
-- its length, the process around the HTTP server (options, signals, sockets, pid
-- file), the command line client, the terminal interface and the bindings, which are input and output
-- around the C interface.
pub mod Prelude
pub mod World
pub mod Exec
pub mod Crypto
pub mod Db
pub mod Kek
pub mod Memory
pub mod Cache
pub mod Ssm
pub mod Reveal
pub mod Sound
pub mod Scenario
pub mod Hex
pub mod Export
pub mod Backup
pub mod Server
