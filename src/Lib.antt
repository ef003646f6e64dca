-- ===== src/Lib.antt =====
-- Two oblivious RAMs with an SGX enclave as their client, Path ORAM and a simple tree ORAM. A node has
-- four blocks (Include/Conf.h). Conf.h chooses the build by macros. PathORAM is modelled as it is
-- built, with AES_ENC and PATH_ORAM defined; SimpleORAM as built without PATH_ORAM, since it faults
-- with it, both with AES_ENC and without.
--
-- The programs. `PathORAM` (App/PathORAM.cpp) runs outside the enclave. It draws paths, asks for the
-- position of a block, and calls `MemTree` (App/MemTree.cpp), which owns the tree of encrypted nodes
-- and hands it to the enclave's calls. The client in the enclave (Enclave/Enclave_Client.cpp) keeps
-- the highest position map and the stash. It downloads the nodes of a path into the stash, takes the
-- block of a key out of the stash, puts it back, and evicts blocks from the stash to the nodes of the
-- path. `SimpleORAM` (App/SimpleORAM.cpp) keeps no stash: it downloads a path, takes the block out,
-- writes the path back, puts the block into the root, and flushes the blocks of a random path
-- downwards. All scans go through the branch-free primitives of
-- Enclave/Enclave_ObliviousFunctions.cpp.
--
-- Which file models what.
-- - Common and its children: tests, lists and bit operations on the native numbers. The 32-bit and the
--   8-bit arithmetic keep their wrap-around.
-- - Oblivious: the assembly of Enclave_ObliviousFunctions.cpp. A conditional move is a test on its
--   flag; `Quad` is the pair of 32-bit words that one 64-bit move reads or writes. Oblivious.Copy and
--   Oblivious.Pick say what the routines compute.
-- - Node: a node of the stash (`MemTreeNode` and its row of `path_stash`) as a list of slots, with
--   `ObliviousNodeWrite`, `ObliviousNodeTransfer` and `ObliviousNodeRead` (`node_write`,
--   `node_transfer`, `node_read`). Node.Shape has the invariant `IsNode` and the list of blocks that a
--   node stands for; Node.Keys, Node.Own and Node.Order are about scans of such lists.
-- - Server: the untrusted memory. Nodes lie at indices, encrypted blocks at addresses. `Cipher` is the
--   interface of `encryptData` and `decryptData`, with the laws that the client relies on.
-- - Encryption: `encryptData` and `decryptData` on bytes, over the AES-GCM calls of the SGX SDK.
-- - Client: `struct Client` as a record, and one function per call that PathORAM makes, with one
--   function per loop: `init_client`, `read_mm_in_client`, `write_mm_in_client`, `download_path`,
--   `oblivious_fetch`, `oblivious_put_to_stash`, `evict_path`. Client.Shape has the invariant
--   `IsClient` (twenty good nodes in the stash, `stash_load` their number of blocks). Client.Upload
--   has `IsLayout`, the addresses allotted to the nodes, and `IsHome`, a good node that has its own
--   ones.
-- - MemTree: `MemTree`, its initialisation, the three calls that PathORAM makes on it, and what
--   `FreeMemTree` frees.
-- - PathOram: the class `PathORAM`. The `pos_map_` of an ORAM, and so on, are the rest of a list. One
--   access is `access_path_oram`, whose part after the position map is `access_tree`. PathOram.Found
--   has `IsOram`, the invariant of a tree: good nodes, and blocks only where their paths go through.
-- - Simple: the client's calls that only SimpleORAM makes, `simple_download_path`, `update_path`,
--   `oblivious_put_to_root` and `simple_oram_flush`, and `ObliviousNodeWrite` without PATH_ORAM
--   (`plain_node_write`). `TreeStore` is how nodes are read and written, `aes_store` and `plain_store`
--   are the two builds of it, and Simple.Store has its laws, `IsTreeStore`. Simple.SinkBlock and
--   Simple.Flush are about the flush's loops.
-- - SimpleTree: `MemTreeFetch`, `MemTreePut` and `MemTreeFlush`, and what each does to the blocks on
--   its own path (SimpleTree.Fetch, Put and Flush) and on any other (FetchAll, PutAll, FlushAll); and
--   the initialisation and the freeing of a tree of plain nodes.
-- - SimpleOram: the class `SimpleORAM`, with `access_simple_oram` and its part after the position map,
--   `access_simple_tree`. SimpleOram.Invariant has `IsSimpleTree` (good nodes with their own buffers,
--   blocks only along their paths and only under the path that the position map gives, each key at
--   most once) and `held`, the bytes that a tree holds for a key. SimpleOram.Array has `Steps`, calls
--   one after the other, and the array of blocks that they are compared with; SimpleOram.Start begins
--   them with the initialisation.
-- - Tests: an instance of `Cipher`, small trees, and runs of the operations.
--
-- Errors. `none` stands for a failed assertion, for a memcpy out of bounds and for a source of
-- randomness that ran dry.
--
-- Bounds and fuel. Loops over the slots, the stash and the levels are structural. `height_loop` has
-- 65 rounds of fuel, one more than a 64-bit capacity has digits. `construct` and `simple_construct`
-- have one unit of fuel for each ORAM of the chain, the first of which initialises the client; each
-- has at most half the capacity of the one before, rounded up. `flush_levels` has one unit for each
-- level but the last, as the loop has rounds. A stash has 80 slots; a download or a put that finds
-- none free is a failed assertion, as is a put to a full root. The indices of a path are 32-bit
-- numbers.
--
-- Parameters. The AES-GCM calls, with the laws of `Gcm`; the encryption of nodes and blocks as the
-- client sees it, with those of `Cipher`; the values that `GenerateMyRand` returns; the
-- addresses that `calloc` returns; the word behind a new `BlockPath`, the register that
-- `ObliviousPickAndSwap32` leaves unset, and the nodes that `client->path` points to once a write at
-- the last index of the position map has replaced half of it (`Behind`). `Cipher` is for blocks of at
-- most 2020 bytes, which `encryptData` has room for.
--
-- Not modelled. The file calls, Util/Simple9.cpp (a copy of a library), App/App.cpp, the benchmark,
-- messages and timings, and the freeing of memory but for `FreeMemTree`. The bytes that a
-- `MemTreeNode` is stored as are not modelled either, so `Cipher` is not built on `Gcm`.
pub mod Client
pub mod Common
pub mod Encryption
pub mod MemTree
pub mod Node
pub mod Oblivious
pub mod PathOram
pub mod Server
pub mod Simple
pub mod SimpleOram
pub mod SimpleTree
pub mod Tests
