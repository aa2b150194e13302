-- ===== src/Lib.antt =====
-- A model of usbmuxd, the daemon that multiplexes connections to iOS devices over USB, with the
-- theorems on it. The programs that talk to the daemon are clients on a local socket (src/client.c);
-- each device runs a TCP-like protocol in USB packets (src/device.c over src/usb.c). A client's
-- request to connect makes a connection on a device; data then goes from the client's socket into
-- TCP packets and back, with windows and acknowledgements. Devices that come and go are announced
-- to the clients that listen.
--
-- The parts and their files:
--   Prelude (Tests, Lists, Words): names of the libraries, Boolean tests, lists measured by native
--     numbers, machine words with their wrap-around written out, byte order.
--   Plist: libplist's trees, as src/client.c builds and reads them.
--   Proto: src/usbmuxd-proto.h, the messages.
--   World (Store, Outside, Total, Frame, Trace): the state that the parts share. A pointer is a number;
--     devices, connections and clients are objects in a store, which may be live or freed. A run returns,
--     faults (it touched memory that is not live, or past a buffer), or hangs. The trace `out` holds
--     what left the process. `Sys` is what lies outside the sources: system calls, libusb, libplist
--     and the collections of libimobiledevice-glue; `Documented` and `PlistFiles` are what their
--     manuals say. The disk maps the text of a path to a file or a directory, so that two spellings
--     of one path are two paths; a call on it may also be refused for a reason outside.
--   Usb: src/usb.c. State: the structs. Transfer and Callbacks: sending and the callbacks of
--     transfers. Getters: what it tells of a device. Setup: usb_device_add up to the request for the
--     languages. Mode: the callbacks of the mode requests. Configure: guess_mode and
--     set_valid_configuration. Serial: get_langid_callback and get_serial_callback. Disconnect:
--     usb_disconnect, reap_dead_devices, usb_shutdown. Discover: usb_discover, the timeouts,
--     usb_process, the hotplug callback, usb_init.
--   Device: src/device.c. State: the structs. Window: update_connection. Ports and Find: searches,
--     find_sport, get_next_device_id. Send: send_packet, send_tcp, send_anon_rst. Teardown:
--     connection_teardown and device_abort_connect. Connection: device_start_connect and
--     device_client_process. Packet, Input, Data: device_data_input and its handlers. Listing:
--     device_get_list and the rest. Lifecycle: device_add, device_remove, the timeouts. Shutdown:
--     device_init, device_kill_connections, device_shutdown.
--   Client: src/client.c. State: the struct. Output: output_buffer_add_message and send_result.
--     Socket: what device.c calls. Close: client_close. Notices: messages about devices. Replies and
--     Command: handle_command. Process: client_process with the two buffer functions. Accept:
--     client_accept, client_get_fds, client_shutdown.
--   Conf: src/conf.c. Path: names of files, dirname. Files: the calls on the file system. Dir: the
--     configuration directory. Uuid, Values, Buid: the system's BUID. Records: the pairing records.
--     Abstract: the store of texts by name that they implement. Served fills the interface through
--     which Client.Replies uses it.
--   FdList: src/utils.c, the lists for poll. MainLoop: main_loop and handle_signal of src/main.c.
--   Preflight: src/preflight.c. State: the structs. Lockdown: libimobiledevice, a parameter. Version:
--     the gate by class and version. Callback: np_callback and preflight_device_remove_cb. Worker:
--     preflight_worker_handle_device_add.
--   Startup: src/main.c. Os: the system calls, a parameter. Options: parse_opts. Instance: the lock
--     file. Daemonize: daemonize and notify_parent. Privileges: the change of the user. Socket:
--     create_socket. Main: main.
--   Log: src/log.c, the buffer of usbmuxd_log and the state of syslog.
--   Tests: the theorems at concrete inputs.
--
-- device.c and client.c call each other: connection_teardown closes a client, and client_close
-- tears a connection down. Teardown.teardown takes the closing as an argument, device_abort_connect
-- uses it where the client's removal is under way, and Connection.connection_teardown ties the knot.
--
-- Bounds and fuel: `uint16_t` and `uint32_t` arithmetic wraps at 2^16 and 2^32; so does the
-- `int` next_device_id, whose overflow is not defined in C. The loops that look
-- for a free port or id run on one round more than there are elements, and never spend it while
-- there is a free value. The loop that flushes a connection's buffer on teardown has fuel for the
-- bytes it holds and for its limit of 1000 ms without progress. `malloc` succeeds.
--
-- libusb's event handling, which runs the callbacks, is an argument `events` of what calls it; the
-- loop in usb_disconnect that waits for a device's cancelled transfers is followed for a number of
-- rounds, and that of usb_process_timeout too; a run that uses them up hangs.
-- main_loop runs over the sequence of the answers of ppoll.
--
-- The preflight worker is followed for two attempts at most, and over a sequence of the events of
-- each of its sleeps, and hangs where it still waits after them, as it would in the code without
-- another event; it is not interleaved with the main thread otherwise. The code behind `leave`
-- frees what the worker holds; the model says only whether a lockdown client is among it.
--
-- Not modelled: where the parts log (src/log.c is a part of its own here), but for the lines that
-- print memory from the device; mutexes, so that each function runs to its end; the WIN32 build; in
-- src/main.c the signal mask, the limit on descriptors, the log level, and the mode and owner of the
-- configuration directory, whose calls only log a failure or have no answer that the program looks
-- at.
pub mod Prelude
pub mod Plist
pub mod Proto
pub mod World
pub mod Usb
pub mod Client
pub mod Conf
pub mod Device
pub mod FdList
pub mod MainLoop
pub mod Preflight
pub mod Startup
pub mod Log
pub mod Tests
