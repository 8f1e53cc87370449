-- ===== src/Lib.antt =====
-- EtherDOG, an EtherCAT master daemon: the parts of it that decide what reaches the bus and who may
-- change it.
--
-- The program. A configuration (src/config.c) names masters and their slaves. Starting a master
-- (src/bus.c, src/master.c) opens the interface, checks the topology, maps the process image,
-- publishes where each PDO entry lies (src/layout.c), brings the slaves to OP and creates two
-- threads. The bus thread runs one cycle after the other: it applies the newest frame of the
-- client to the outputs (src/data.c, src/dgram.c, include/etherdog_protocol.h), exchanges, sends
-- the inputs back, and counts errors. The monitor thread recovers slaves when the bus thread has
-- seen too many of them. A control socket (src/control.c) takes commands, and src/log.c keeps the
-- last log entries for it.
--
-- The files. State is a record that an operation takes and returns; what comes from outside (a
-- datagram, an answer of a slave, whether a lock is free or an allocation succeeds) is an argument.
--   Base       the shared names, Boolean tests, lists with the C memory operations, integers, and
--              results that are a value or an error code
--   Protocol   include/etherdog_protocol.h: edog_frame_encode_header, edog_frame_decode_header,
--              edog_seq_newer; Frame, Bytes, Prefix and Sequence have the proofs
--   Dgram      src/dgram.c: edog_dgram_parse, same_peer; Dgram/Loopback has the proofs
--   Data       src/data.c: Session (ecat_data_init, _alloc_buffers, _free_buffers, _open, _close),
--              Outputs (ecat_data_apply_outputs), Inputs (ecat_data_publish_inputs). Frames is
--              the independent description of what a session accepts, Refine the machine on the
--              output image that the code implements, Watchdog, Closing, Chain, Published and Calls
--              what follows
--   Bus        src/bus.c: State and Cycle (ecat_run_one_cycle), Schedule (ecat_bus_thread round the
--              cycle), Lifecycle (start_single_master, stop_single_master, ecat_bus_start), Monitor
--              (attempt_recovery, with ecat_master_recover_slave of src/master.c), Watch
--              (ecat_monitor_thread, publish_slaves_snapshot, drain_mailbox_and_errors);
--              Thresholds, Quiet, Streaks, Metrics, Deadlines, Spread, Recovery, Marking and Threads have
--              the proofs
--   Command    src/bus.c: State (g_masters), Configure (ecat_bus_configure), Requests
--              (parse_master_slave, validate_interface_name); Atomic, Sound and Numbers have the
--              proofs
--   Config     src/config.h and src/config.c: Types; Host, the calls of cJSON and of the C library as
--              an interface, and the readers of fields over it; the parsers, one file for each
--              kind of object: DataTypes, Sdo, Pdos, Modules, Slaves and Parse
--              (ecat_config_parse_all); Doubles, the numbers of an SDO; Validate
--              (ecat_config_validate). Loaded, Masters, Shapes, Parsed, Text and Truncation have
--              the proofs on the parser, Relations, Station, Accepted, Whole and Hex those on the
--              validation, Sample is a document for the tests
--   Layout     src/layout.c: Build (ecat_layout_build)
--   Control    src/control.c: Client (handle_line, constant_time_equals), Framing (service_client);
--              Auth, Serving, Stream and Requests have the proofs
--   Master     src/master.c: Timing (ecat_master_configure_watchdog, ecat_master_transition_to_op),
--              Topology (ecat_master_validate_topology), Open (ecat_master_open_and_scan,
--              ecat_master_close), Fixed (ecat_master_verify_fixed_pdos), Sdo (encode_sdo_value,
--              ecat_master_write_sdos), Iomap (the buffer of the process image),
--              Configure (ecat_master_configure); Polling, Matching, Wire, Encoding, Ranges, Stands,
--              Written, Skipped, Reported, Mapping, Guarded, Scanning, Opening and Verified have the
--              proofs
--   Iface      src/iface_state.c: Text (the readers of numbers and flags), Nic (the calls of ethtool,
--              which is a parameter), Saved (the state file), Apply (ecat_iface_state_apply,
--              ecat_iface_state_revert, and ecat_iface_validate of src/config.c); Numbers, Lines,
--              Listing, Reload and Restored have the proofs, Manual is a small ethtool for the tests
--   Log        src/log.c: Ring (vlog, edog_log_set_level, edog_log_query)
-- A module Tests of each part runs its definitions on small inputs.
--
-- Numbers are natural numbers with the wrap of their C type written out where the code can reach
-- it; the 64-bit counters of entries and of bus cycles are left unbounded. A signed number is an
-- integer. No definition needs fuel: each loop is a recursion over the list or the count that the C
-- loop walks. The receive loop walks the datagrams that are queued until the socket is drained; the
-- polls for OP walk the number of retries.
--
-- A double is nan, infinite or a sign with m / 2 ^ k, and its conversion to an int64_t is partial, as
-- in C. Whether calloc gives memory is a function of the JSON node that is read, for each of which
-- the parser allocates once.
--
-- Not modelled: cJSON, which is another project's code, and the handlers that print JSON from the
-- state; the sockets, the slots of the control clients and the check of their user, the start of
-- processes and the entry of the program, which are input and output; the scan of modules, the
-- diagnostics of couplers and the commands that open and close sessions. SOEM, ethtool and the C
-- library are parameters or arguments. The threads of a master are interleaved by whole operations,
-- as its locks and atomics make them.
pub mod Base
pub mod Protocol
pub mod Dgram
pub mod Data
pub mod Bus
pub mod Config
pub mod Layout
pub mod Control
pub mod Master
pub mod Iface
pub mod Command
pub mod Log
