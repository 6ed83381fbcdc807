-- ===== src/Lib.antt =====
-- DecaFS, a distributed file system: the parts that keep its state.
--
-- A client talks to the Barista, which knows the files and keeps the state of open files; the bytes of
-- the files lie in chunks on the Espresso nodes. This library models
--   src/lib/espresso_storage: Espresso. A node keeps its chunks in one data file. `Extents` is the set
--     of free extents of the file, `Descriptor` the name of a chunk, `Allocator` the functions
--     allocate_chunk, deallocate_chunk and reallocate_chunk, `Storage` the functions read_chunk
--     (read_data), write_chunk, delete_chunk, and espresso_global_data_init.
--   src/lib/locking_strategy: Locking, the locks on files and on the metadata.
--   src/lib/volatile_metadata: Volatile, the class Volatile_Metadata.
--   src/lib/persistent_metadata: Persistent, the class Persistent_Metadata_Impl.
--   src/lib/io_manager: IoManager, the class IO_Manager, which cuts the reads and writes of a stripe
--     into requests to the nodes, with src/lib/access and the requests of
--     src/lib/network_core/barista_network_helper.cpp.
--   src/lib/barista_core: Barista. `Barista` has the state of the whole Barista, made of the states of
--     the parts above, and the call-throughs to the metadata; `Requests` the responses of the nodes;
--     `Files` open_file, close_file and file_seek; `Transfers` read_file and write_file; `Deletes`
--     delete_file.
--   src/lib/network_core/barista_server.cpp: Server, which connections are those of nodes and of clients.
--   src/lib/network_core: Packets, the bytes of the packets of network_packets.cpp and of client reads
--     and writes; and Node, the requests that an Espresso node handles (espresso_client.cpp and
--     espresso_packet_processor.cpp), over Packets and Espresso.
--   src/lib/distribution_strategy and src/lib/replication_strategy: Placement, on which nodes the copies
--     of a chunk go.
--   src/lib/decafs_types: Types, what these parts share.
-- A function that changes state takes the state and returns it with its result; an error code is a
-- value. A run (`Volatile.Calls`, `Locking.Exclusion`, `Locking.Mutex`) is any calls in any order, one
-- after the other: a function of the locking strategy holds its mutex throughout; the metadata classes
-- lock only their counters, and calls that overlap there are not modelled. The Barista handles one
-- request or response after the other.
--
-- OrdMap is std::map and std::set by their documented behaviour: entries in the order of a comparator.
-- The PersistentMap and PersistentSet of src/lib/persistent_stl are taken as the containers that they
-- wrap. The maps by chunk in IoManager and Barista have their comparator as a parameter, since
-- operator< of file_chunk (`Types.File.file_chunk_lt`) is not the strict order that std::map asks for.
-- No result on these maps takes the comparator to be one: they hold for any, for any under which no
-- chunk is before itself (and a key is of one file), which is so of operator<, or are about operator<
-- itself; they are run with operator<. What std::map does under such a comparator is left open by the
-- standard; the model compares a key with the entries one after the other. The data file of a node is
-- a parameter, `Espresso.Storage.DataFile`, with what a node relies on of read(2) and write(2) in
-- `Espresso.Storage.Contents.IsReliable`; `Espresso.Memory` has such a file in memory. Whether send(2)
-- takes a message is a parameter of IoManager, `delivers`; the messages taken are listed, the last one
-- first.
--
-- A uint32_t is a natural number, and where the code adds to one it wraps at 2^32. An int that the
-- code makes from one is an integer. In Espresso, write_chunk has no result where offset + count
-- overflows an int, deallocate_chunk none where it uses an iterator whose element it has erased, and
-- Node none for an id or an offset that would be a negative int. The other sums of Espresso stay
-- within the size of the data file, which is an int; read_data has offset + count exact, and is called
-- only where that is below 2^31. The loops of IoManager and of `Barista.Transfers` run on fuel, since
-- the code does not bound them. get_first has its own, one round more than the offset, which is enough
-- for sizes from 1 to 2^31 - 1, as a round takes at least one byte off; for other sizes the loop of
-- the source may not end. For a write to a stripe that no node refuses, two rounds more than there are
-- bytes are enough: at most one round writes nothing. All other loops run over a list.
--
-- Not modelled: barista_core_init, file_storage_stat and what only prints; the packets with paths and
-- their dispatch by the Barista; the slots of PersistentMap on disk; the monitoring strategy; sockets,
-- the applications, the older RPC layer, and the tests.
pub mod Prelude
pub mod OrdMap
pub mod Espresso
pub mod Types
pub mod Locking
pub mod Volatile
pub mod Persistent
pub mod Packets
pub mod Node
pub mod Placement
pub mod IoManager
pub mod Barista
pub mod Server
