-- ===== src/Lib.antt =====
-- RZI, a C SDK for LoRaWAN and raw LoRa products on Zephyr: its core services, from the error
-- catalog to the firmware update coordinator.
--
-- The parts and their files:
-- - Err: include/rzi/err.h and src/common/common_err.c, the closed error catalog that every
--   other part returns, and `rzi_err_from_errno`, by which results of Zephyr enter it.
-- - Power: src/power/power.c, the runtime switch and the counted locks over Zephyr's system PM.
--   The LoRaWAN service takes the LoRaWAN lock in class C; storage and the firmware update take
--   the flash lock.
-- - At: the AT command service. At/Output is src/at/at.c (flags, password, responses),
--   At/Registry is src/at/at_registry.c (the tables of commands and extensions, dispatch, factory
--   reset), At/Parser is src/at/at_parser.c (from bytes to lines to commands), and At/Input is the
--   way from the transport through the ring buffer to the parser, also in at.c. The parser
--   executes a line through the registry, whose handlers act on the service's state.
-- - Storage: src/storage/storage_settings.c, namespaced values and versioned records with a CRC.
-- - Lorawan: src/lorawan/lorawan.c. Events: what the backend publishes, the join sequence's
--   filter and the delivery to subscribers and attached services. Subscribers: the table of
--   callbacks. Lifecycle: start, region, class and its power lock. Join: the join sequence.
--   Uplink: sending and queries.
-- - Settings: src/lorawan/lorawan_settings.c, the schema of the LoRaWAN settings: defaults,
--   validation, migration of older keys, and the cache in front of the storage. Coherence has what
--   the settings rely on in the storage, Loading and Cache keep the cache true to it, Durability
--   and Runs say what a restart finds, and Persistent puts the settings on the storage service.
-- - Credentials: src/lorawan/api/lorawan_credentials.c and lorawan_config.c, over the settings:
--   the store and its loading, Access (getters and setters), Policy (join policy, channel mask,
--   join configuration, plain settings); Guard, Stored, Bounds and Durable prove.
-- - Channels: src/lorawan/api/lorawan_channel.c, sub-bands and fixed channels as channel masks,
--   which the credentials keep.
-- - Network: src/lorawan/api/lorawan_network.c (Network and Network/Limits), lorawan_class_b.c,
--   lorawan_multicast.c, lorawan_certification.c and lorawan_session.c (Network/Groups), and
--   lorawan_mac_commands.c (Network/Mac): the checks in front of the backend's operations.
-- - Lora: src/lora/lora.c, the raw radio service and its payload cipher.
-- - Commands: what AT commands share (src/at/commands/lorawan/at_lorawan.c, and the same functions
--   in src/at/commands/lora/at_lora.c), the key commands of at_lorawan_key_id.c (Commands/Keys)
--   over the credentials, at_lorawan_class_b.c and at_lorawan_certification.c (Commands/ClassB)
--   and at_lorawan_multicast.c (Commands/Multicast) over Network, and
--   src/at/commands/at_network_mode.c (Commands/Mode).
-- - Fuota: src/lorawan/services/fuota/lorawan_fuota.c, an attached service: the states of a
--   firmware update, the detection of the image's size and its copy into the update slot.
--
-- A C function is the function of its name without the prefix `rzi_<part>_`, from the arguments
-- and the state to the code and the new state. `isr` is `k_is_in_isr()`; a pointer is an `Option`,
-- or a flag where only NULL matters; a result through a pointer comes with the code. Return codes
-- are integers, as C has them. Calls into clients and into Zephyr's policy are recorded in the
-- state, the latest first. A body that holds a mutex is one step; where a mutex is given up around
-- a callback, what the callback calls is a later step. An installation gives the mutex up for its
-- copy: its parts are steps of Fuota/Runs, between which other steps can come. `rzi_lora_receive`
-- takes no lock and is one step all the same, so nothing is said of calls that overlap it. The
-- reboots that the AT service and the coordinator ask for are recorded or return a code; what a run
-- does behind them does not happen on a device.
--
-- Code outside of the repository is a parameter: the errno constants (Err.Errno), the transport's
-- write (At.Env), the ring buffer (At.Input.RingBuffer), settings, byte order and CRC
-- (Storage.Kernel), the message queue and the LoRaWAN backend with the stored configuration
-- (Lorawan.Host), the image backend, the image writer and the boot loader's request
-- (Fuota.Platform). What theorems need of it are the records IsSettings, IsByteOrder, IsQueue,
-- IsCopyable and IsSlot, and IsRecordStore of a settings backend that keeps whole records (NVS,
-- ZMS); the modules under Tests instantiate all of them. The settings take the storage service as
-- an interface (Settings.StorageApi, with the laws Coherence.IsStorage), which Settings/Persistent
-- fills by the model of the storage service; the credentials take the settings as one
-- (Credentials.SettingsApi), which Credentials/Durable fills by the model of the settings. The
-- backend's network operations and the radio are the records NetworkOps, GroupOps, MacOps, Radio.
--
-- Bounds: numbers are natural numbers; a byte or a word wraps or is limited where the code's type
-- makes it so: lock counts stop at 255, the sum of command counts wraps at 2^32, record sizes at
-- 2^16, image offsets at 2^32. The lists of the source are recursed on; fuel is used twice, for
-- the image's copy, where the image's size is enough since each round copies at least one byte,
-- and for the AT thread's input, where one more than the bytes in the ring is enough.
--
-- Words of more than a byte that the settings keep are in the byte order of the targets, which are
-- little-endian. The region that rzi_lorawan_get_region gives is an argument of the operations
-- that ask for it, and so is what rzi_lorawan_check_started finds for the network parameters.
--
-- Not modelled: the other AT commands, what strtol and sscanf make of an argument and printf of a
-- number, the start of the AT service, the radio tests of the raw LoRa service, statistics of
-- storage, the backends (adapters of third-party stacks), and boards, samples and build files.
pub mod Prelude
pub mod Err
pub mod Power
pub mod At
pub mod Storage
pub mod Lorawan
pub mod Settings
pub mod Credentials
pub mod Channels
pub mod Network
pub mod Lora
pub mod Commands
pub mod Fuota
pub mod Tests
