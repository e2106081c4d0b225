-- ===== src/Lib.antt =====
-- The Komari agent for OpenWrt (luci-app-komari-agent-c), a C program that reports the state of a
-- router to a server over a WebSocket or HTTP.
--
-- The parts and how they interact. src/core/main.c loads the configuration (src/config) from UCI, a
-- JSON file and the environment and validates it, opens the connection (src/network/websocket.c) and
-- starts the threads: a receive thread that reads frames, assembles messages and hands them to the
-- v2 protocol (src/protocol/v2.c), which notes events and the identifiers to acknowledge, and a
-- report thread that collects (src/monitoring), builds JSON and sends it with those identifiers. The
-- results of the sends drive the fallback from protocol v2 to v1. The string helpers are in src/utils.
--
-- What models what. A C string or buffer is a list of bytes without the NUL; a function that writes
-- into a caller's buffer takes its size and returns what is written; -1 is `none`, `false` or a value
-- of the model's own. An operation that holds a mutex is one step. `int` and `size_t` are numbers
-- without wrap-around where the code's own guards keep them small; where it does not, the modulus is
-- written out (the payload length of a frame, the cutoff of the cleanup).
--   Prelude             lists, tests, bit operations, C strings; Prelude.Strtol and Prelude.Integer
--                       are strchr, strtol and atoi of the C library.
--   Websocket.Base64    ws_base64_encode.
--   Websocket.UrlEncode url_encode.
--   Websocket.Mask      ws_apply_mask.
--   Websocket.Transport read_full and send_full, over a socket that answers by a list of packets,
--                       interruptions and errors; the bytes left over from the handshake come first.
--   Websocket.Frame     ws_send_frame and ws_recv_frame; Frame.Wire is the format of RFC 6455.
--   Websocket.Fragment  ws_fragment_accumulate; the allocator is a parameter.
--   Websocket.Header    ws_extract_header and the call in ws_handshake.
--   Websocket.Url       parse_url.
--   Websocket.Message   ws_message_t and ws_message_parse_from_json; cJSON is a parameter (the record
--                       Cjson of the calls that the code makes).
--   Websocket.Event     jsonrpc_parse_event_from_json of src/protocol/jsonrpc.c, and
--                       ws_handle_v2_event with its helpers.
--   Websocket.Session   ws_recv_thread over all of these; its calls are listed in their order.
--   Websocket.Lifecycle ws_client_connect, ws_client_disconnect, ws_client_stop, ws_client_send_text
--                       and ws_client_send_ping, with counts of the resources that are not released.
--   Protocol.State      v2_state_t and its operations, v2.c; Protocol.State.Report has the part of
--                       report_thread in main.c that takes the identifiers and clears them.
--   Protocol.Compress   compress_gunzip of src/protocol/compress.c; zlib is a parameter, and the record
--                       IsInflate of Compress states what its documentation promises.
--   Protocol.Fallback   ws_client_note_protocol_result and ws_client_should_use_current_protocol.
--   Idn                 src/network/idn.c: Utf8 has utf8_decode, Punycode the encoder of RFC 3492, Host
--                       the conversion of labels, names, hosts and URLs. inet_pton is a parameter.
--   Update              src/update/update.c: the comparison of versions, the versions that opkg and apk
--                       report. The output of the commands is a parameter, and so are LONG_MAX and
--                       whether char is signed.
--   Ping                src/ping/ping.c: the checksum, the ICMP echo request of ping_task_icmp and the
--                       tests on what is received for it. The byte order of the machine is a
--                       parameter.
--   Netstatic           src/monitoring/netstatic.c: collection, cleanup, interfaces, monthly sums. The
--                       clock, the allocator and the calendar are parameters.
--   Utils               utils_json_escape and utils_json_unescape, utils_str_trim,
--                       utils_str_ends_with, utils_set_string of src/utils/utils.c.
--   Config              agent_config_t, config_init, config_validate, config_load_from_env and the UCI
--                       reader of src/config/config.c. `double` and `atof` are a parameter (the record
--                       Config.Doubles) with the one law that 1.0 is not zero or less.
--
-- Bounds and termination. Every loop is structural recursion, on the list that it walks or on the
-- count of bytes that are wanted, but for the loops that run on fuel: compress_gunzip, where
-- more than the stream's rank (a bound on its progress) and the limit of 16 MiB together is enough;
-- the receive thread, where one more than the bytes of the stream is; and in Punycode the main loop,
-- where one more than the code points is, and the digits and the bias, where the number itself is,
-- since each step divides it. The comparison of versions takes the bytes of both for fuel, a byte of
-- each a turn, and the checksum folds its carries with the sum for fuel. The unescaper
-- counts down the bytes that its index passes over. The limits are the program's: 1 MiB for a
-- message, 1000 events, 1024 identifiers, 200000 samples, 32 interfaces.
--
-- Not modelled: NULL arguments, logging, release of memory, TLS and sockets beyond their answers, the
-- vendored cJSON (src/vendor), the scheduling of threads, the modules that mostly call the
-- operating system or cJSON (autodiscovery, terminal, gpu, motd, logger, dns_resolver, report), the
-- LuCI web interface and the packaging scripts. Of the parts that are modelled, the loading of JSON
-- files, the writing of the statistics, and the handshake apart from its header lookup are not.
pub mod Prelude
pub mod Websocket
pub mod Protocol
pub mod Netstatic
pub mod Utils
pub mod Config
pub mod Idn
pub mod Update
pub mod Ping
