-- ===== src/Lib.antt =====
-- RedBoxDb: a vector database. A server (src/server.cpp) serves databases over TCP; each is a vector
-- engine (src/engine.cpp, include/redboxdb/engine.hpp) over a memory-mapped file, with an index that
-- is either a set of clusters (IVF) or a layered graph (HNSW).
--
-- Base: lists, maps, loops and tests on the native numbers.
-- Floats: `float` and `double` as interfaces with the laws of IEEE comparison.
-- Distance: include/redboxdb/distance.hpp, `l2_scalar`, `l2_avx2` and `l2`.
-- Metadata: include/redboxdb/SpecificMetadata.hpp, the header of a file.
-- MetadataStore: src/metadata_store.cpp, the rows of `create_database` and `load_database`, over an
--   interface for PostgreSQL and libpqxx; MetadataStore.Statements has the other operations, and
--   MetadataStore.Rows and MetadataStore.Listed say what is read back.
-- Storage: `StorageManager::Manager` (include/redboxdb/storage_manager.hpp, src/engine.cpp): the
--   blocks of a file and their accessors; Storage.Size their sizes and offsets, Storage.Open the
--   constructor. Blocks are functions of the slot, and a row of `dimensions` floats is a list.
-- Cluster: include/redboxdb/cluster_manager.hpp, the nearest centroid, the running mean and the
--   K-means++ initialisation.
-- Graph: what the engine asks of include/redboxdb/hnsw_manager.hpp, as an interface with laws.
-- Hnsw: include/redboxdb/hnsw_manager.hpp, the edge lists and the choice of neighbours; Hnsw.Search has
--   `search_layer` and `hnsw_search`, Hnsw.Single `search_layer_1` and `hnsw_search_1`, Hnsw.Insert
--   `hnsw_insert`, Hnsw.Edges the layout, Hnsw.Links, Hnsw.Found and Hnsw.Wired where edges and
--   searches lead, Hnsw.Beams and Hnsw.Ordered the order of what is found, Hnsw.Fuel the number of
--   rounds, Hnsw.Levels the level of a new node, and Hnsw.Index the instance of Graph.
-- Engine: `RedBoxVector`. Its state is the record `Engine`; Engine.Insert has `insert` and
--   `insert_auto`, Engine.Tombstones `remove` and the tombstone file, Engine.Search `search` and
--   `search_N`, Engine.Open the two constructors. Engine.Store states the invariant, Engine.Refine,
--   Engine.Erase and Engine.History compare the operations with a map from ids to vectors,
--   Engine.Durable and Engine.Logged say what a restart keeps, Engine.Nearest and Engine.TopN what a
--   search returns.
-- Server: src/server.cpp. Its state is `SharedState`, with the engines by their addresses;
--   Server.Wire has `recv_all`, `send_all` and the bytes of numbers, Server.Receive what
--   `handle_client` reads of a command, Server.Serve what it does and answers, Server.Session its
--   loop for one client, and Server.Steps the connections together. Server.Client has the packets
--   of Client/client.py and of redbox-sdk/redboxdb/client.py, which Server.Framing and
--   Server.Handshake compare with what is read, and Server.Served with what is answered.
--   Server.Received and Server.Engines follow what was read into the engines, Server.Keeps,
--   Server.Outcomes and Server.Commands state and keep the invariant of the catalog, Server.Ages
--   says what one command leaves to those that others have read, Server.Tenants and Server.Dropped
--   are about several databases. Server.Meta has `handle_client` with a metadata store, which
--   Server.Meta.Same compares with Server.Serve, and Server.Meta.Follows the rows with the
--   databases; Server.Startup has the start-up of `main` from the store, Server.Runs what it
--   leaves, and Server.Restored what it reads of the files of an earlier server.
-- Tests: the theorems at concrete inputs, with whole numbers for floats.
--
-- Each method of the engine holds its lock throughout, so it is one step here. Random draws, the
-- answers of the file system and of the system calls are arguments or interfaces. The loops are
-- recursions on their number of rounds; the loop of `l2_avx2` has fuel `dim`, one more than it
-- needs for dim > 0. The loop of an HNSW beam has one round more than the file has slots, since a
-- slot is a candidate once, and a greedy descent one more than there are slots in use, since each
-- move leads to a nearer one. The levels that `compute_level` draws, by a logarithm of floats, are
-- a sequence that the index is given. A session of the server takes a round for each command, of
-- five bytes at least, so one round more than there are bytes is enough; a `recv` gets a byte at
-- least. An address that has been freed is not given again. A capacity from 2^31 on, which is a
-- negative int, a file of another layout, and one whose size does not fit in 64 bits leave a
-- command without an outcome here, as does a read of freed memory. The connections of
-- Server.Session and Server.Steps are to a server that runs without a metadata store, and its
-- answers reach the client; a failed open leaves the files as they were. Where
-- `std::filesystem::remove` throws, the connection ends: after a `DELETE` whose compaction cannot
-- remove the old tombstone file, and after a `DROP_DB` whose files cannot be. Outside the model:
-- prefetches, logging, `warm_pages`, the Windows branches, `run_migrations`, and how the Python
-- clients read answers. A statement of the store may throw; the rows and the engines change in the
-- order of the calls, so that the store is not raced for. The data directory is the working
-- directory. Reads that the source leaves undefined (more probes than clusters, a query shorter
-- than the dimension), and a search of an HNSW index with a width from 2^29 on, whose product by 4
-- overflows an int, give a default here.
pub mod Base
pub mod Floats
pub mod Distance
pub mod Metadata
pub mod MetadataStore
pub mod Storage
pub mod Cluster
pub mod Graph
pub mod Hnsw
pub mod Engine
pub mod Server
mod Tests
