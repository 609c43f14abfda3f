-- ===== src/Lib.antt =====
-- The coriolis snapshot agent: a Go service that takes snapshots of disks through a kernel
-- module and hands out the changed parts of a disk. It has an HTTP API, a manager that owns the
-- snapshots, a bolthold database of what exists, one watcher for each snap store (the files that
-- hold the blocks a snapshot has replaced), and calls of the kernel module by ioctls and by a
-- character device.
--
-- Which file models which part:
--   Common            shared names, Boolean tests, lists, bits
--   Errors            errors/errors.go, with errors.Is and errors.Cause
--   Result            Go's error returns, and methods that change a state
--   Types             internal/types/types.go
--   Increments        worker/manager/manager.go, fetchIncrements. Its children follow the loop
--                     in blocks (Blocks), relate that to bytes (Scan), and give the two results
--   Wire              worker/snapstore/types.go: the messages to the character device, each
--                     Serialize a writer into a buffer. Wire/Format has parsers that are written
--                     from the layout, the other children the round trips
--   Bolthold          the store under the database: an interface with its documented behaviour,
--                     and an implementation in memory for the tests
--   Db                db/db.go and db/models.go: a function for each method of Database that the
--                     agent calls, on a record of buckets
--   Storage           internal/storage/storage.go and internal/util/util.go: the list of block
--                     devices and the searches through it (Storage), the device, the file
--                     system and the ranges of a file (Storage/Files), the loop over its extents
--                     of internal/util/fiemap.go (Storage/Fiemap), what
--                     internal/storage/util.go reads of one device (Storage/Probing), and the
--                     disks put together from that (Storage/Volumes). Storage/Udev is
--                     internal/storage/udev_monitor.go
--   System            internal/system/: the report on the machine
--   Watcher           worker/snapstore/character_device_watcher.go and
--                     worker/common/messages.go: a function for each method of
--                     CharacterDeviceWatcher, with the reading loop in Watcher/Reader
--   Ioctl             internal/ioctl/ioctl.go: each call as the requests that it makes of the
--                     kernel module. The manager takes its answers as a Kernel and a View
--   Config            config/config.go: ParseConfig and its validation
--   Manager           worker/manager/: its state (State) and the answers it gets (Host), the
--                     start (Startup), the tracked disks (Disks), the locations of snap stores
--                     (Locations) and the mappings of disks to them (Mappings), the snap stores
--                     (Stores, with Stores/Capacity and Stores/Usage), CreateSnapshot from its
--                     request to the snap stores (Request) and on from there (Creation),
--                     DeleteSnapshot and cleanupSnapStore (Removal), GetChangedSectors (Changes),
--                     the searches of CreateSnapshot and FindVolumeSnapshotForDisk (Volumes), the
--                     messages of the watchers (MessageLoop), and the responses (Responses).
--                     Manager/Kept has rules for what a method keeps; Manager/Closed shows that
--                     every method keeps what the calls that change the database keep;
--                     Manager/Tidy, Manager/Linked and Manager/Registry are such properties: an
--                     order of the rows, their references, and an abstract registry of mappings
--                     and snap stores
--   Api               apiserver/controllers/controllers.go: a function for each handler
--   Service           cmd/coriolis-snapshot-agent/main.go: the service as it runs, a step relation
--                     over requests, messages of the watchers and starts of the agent.
--                     Service/Main is main itself up to the server, with util/util.go
--   Tests             examples
--
-- A method that changes its receiver is a function from a state to a result and the new state.
-- What the operating system, the kernel module and third-party packages answer is an argument
-- (Sys, Facts, Probe, Outside, Event, Module, Kernel, View, Host, ConfigHost, Texts, the interface
-- Bolthold), so that the results hold for every answer. What the kernel module and the file system
-- answer to the manager depends on what it has asked of them before. The reading loop of the
-- watcher runs over a list of reads and waits where the list ends; the search of the udev monitor
-- counts its attempts down from 60; the loop over the extents of a file has fuel, and one call
-- more than there are extents is enough; all other loops follow a list. Numbers are natural
-- numbers with the wrap-around of the Go type written out where the code computes with them. A
-- text of an error, a log line and a lock are not modelled.
--
-- The service serves one request or message after the other. CreateSnapshot and DeleteSnapshot hold
-- a lock of the manager in the code; CreateSnapStoreMapping and the loop over the messages hold
-- none, so that what happens between the calls of one of them is outside the model. So is a stop of
-- the agent within a handler, and a change of the configuration between two starts.
--
-- Not modelled: the layout of the C structs of the ioctls, blkid, the fiemap call and the socket of
-- udev, the encoding of JSON and the routes, the reading of the configuration file, the installation
-- scripts, the methods of Database that nothing calls, and the goroutines with their locks.
pub mod Common
pub mod Errors
pub mod Result
pub mod Types
pub mod Increments
pub mod Wire
pub mod Bolthold
pub mod Storage
pub mod System
pub mod Db
pub mod Watcher
pub mod Ioctl
pub mod Config
pub mod Manager
pub mod Api
pub mod Service
pub mod Tests
