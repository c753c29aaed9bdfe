-- ===== src/Lib.antt =====
-- Whitefield: a simulator of wireless networks that runs real network stacks over a simulated
-- channel. Airline (src/airline) reads the configuration, simulates the channel and counts
-- packets; each stack is a process; commline (src/commline) carries messages between them over
-- datagram sockets, one for each line and node; a page (canvas/assets) polls a server for the
-- topology and draws it.
--
-- Base holds what the parts share: lists by index (Base/Lists), decimal digits (Base/Decimal),
-- C's int (Base/Int), bits (Base/Bits), Boolean tests (Base/Tests), and texts as lists of bytes
-- with the functions of the C and C++ libraries that the program calls (Base/Text). Numbers are
-- natural numbers; where a counter wraps in the program the model takes the remainder.
--
-- Canvas: canvas/assets/cytoscape_app.js. The page is a state machine: `step` takes the globals
--   through one event, which is a timer, a press of a button or a change of a request's state.
--   `query_graph`, `on_ready_state_change`, `view_position` and `view_tree` are the functions of
--   the script. JSON.parse and cytoscape are parameters. Canvas/Polling is about requests and
--   what is shown, Canvas/Fitting about layouts, Canvas/Prompt about a server that answers each
--   query in time.
-- Canvas/Server: canvas/canvas.py, the server behind the page, with the functions `get_config`,
--   `query_nodes`, `query_edges` and `graph`; Server/Starting models the configuration and the
--   start, Server/Strings the parts of Python's str and int. What arrives on a socket is an
--   argument, and so are UTF-8 and `float`. Server/Words and Server/Reading are about the file
--   with the positions, Server/Parents and Server/Routes about the answers of stacks,
--   Server/Asking about the questions, Server/Refused about a refusal, Server/Configured about
--   config.inc. Server/System puts the monitor, Airline and the stacks behind the socket, and
--   Server/Graph has what the page gets.
-- Commline/Message: src/commline/commline.h, the message buffer, the flags, MTYPE and GET_LINE.
-- Commline/Usock: src/commline/cl_usock.c and commline.c, the table of sockets. The answers of
--   socket, bind, sendto and recvfrom are arguments. A read outside of the table is `fault`.
--   Usock/Naming models `usock_setabsaddr`, the address of a type's socket.
-- Commline/Network: processes that call `cl_init`, `cl_sendto_q` and `cl_recvfrom_q` of
--   src/commline/commline.c in any order. The kernel is the interface `Datagrams`, whose laws
--   are what unix(7) says of datagram sockets; an address is known by its message type.
--   Network/Queues is an instance with bounded queues, Network/Booking counts what was accepted
--   and delivered, Network/Order is about what is received, Network/Sending about how a sending
--   ends.
-- Commline/Msgq: src/commline/cl_msgq.c, the transport that is compiled in without
--   USE_UNIX_SOCKETS. Msgq/Agreeing compares it with Commline/Usock.
-- Commline/Address: src/commline/cl_stackline_helpers.c, the long addresses of nodes.
-- Commline/Stack: `sl_handle_cmd` of src/commline/cl_stackline_helpers.c, a stack's answer to a
--   command.
-- Commline/Crc, Commline/Pcap: src/commline/pcap_util.c. A capture file is the list of the bytes
--   written to it. Crc/Serial compares the checksum with the bitwise definition, Pcap/Reader
--   reads a file back.
-- Airline/Dictionary, Airline/Nodeinfo: `ci_less` of src/airline/common.h, and Nodeinfo.h.
-- Airline/Config: src/airline/Config.cc, Config.h and common.cc. `getKeyRange` is
--   `get_key_range`; a loop over a range of nodes is `write_range`; a line of a file is
--   `read_line`, and what the code does behind the key is `set_line`. `setConfigurationFromFile`
--   ends in an `Outcome`: success, failure (also by a C++ exception), or a fault, which is an
--   access outside of nodeArray. `stod` is a parameter, and so are the files. Lines holds the
--   setters, Range and Keys what they do, Starts where a line's range starts, Safety, Files and
--   Includes carry the invariant over files and their includes, and Reading has the results;
--   Lookup models `get`, with the entry that a call of it stores, CFG_INT and `getNodeCfg`.
-- Airline/Spawn: the part of Config.cc that turns a node's command into the text sent to the
--   forker: `getNextCmdToken`, `resolveToken`, `cmdParser`. A token that makes the code read
--   behind a buffer is `undefined`. Spawn/Words is about plain commands, Spawn/Resolve about
--   node ids and Spawn/Ending about the loop; Spawn/Sending models `spawnStackline`, the message
--   with a node's command.
-- Forker: src/utils/forker.c, `fork_n_exec`; a write behind the end of argv or envp is `fault`.
--   Forker/Queue models the table of children and `wait_on_q`, on a list of what is received.
--   Forker/Pty models src/utils/pty_handler.c, with the answers of the system as data; Pty/Alone
--   is about several nodes. Forker/Spawned follows a command from Airline to the program that is
--   run, and Forker/Network the commands of all nodes.
-- Airline/Iface: src/airline/NS3/LrwpanIface.cc and `SendAckToStackline` of
--   src/airline/common.cc: `DataConfirm` is `data_confirm`, which gives the message that is
--   counted and sent. The simulator's enumeration is an enumeration of the names that the code
--   uses. Iface/Lrwpan models the operations of the interface on a table of devices,
--   Iface/Receiving a received packet, Iface/Setup what sets the devices up, and Iface/Handler
--   the table of interfaces of NS3/IfaceHandler.h and NS3/IfaceHandler.cc.
-- Airline/Stats: src/airline/mac_stats.cc and mac_stats.h. Summary models `get_summary`.
-- Counting, Bounds and Kept are about single calls, History and Runs about any run of them.
-- Airline/Manager: src/airline/NS3/AirlineManager.cc and src/airline/Command.cc. The state
--   `Airline` holds the configuration, the counters, the devices and the positions of the nodes.
--   Commands end in a `Ran`: an answer, an exception, an endless loop, or an access outside of
--   an array. Manager/Commands has the commands with their choice, Manager/Handling
--   `msgrecvCallback` and `msgReader`, which reads a list of the datagrams that wait.
--   Manager/Positions models the file that `cmd_node_position` writes. Manager/Unchanged and
--   Manager/Keeping are about what messages change, Manager/Draining about the reading loop,
--   Manager/Small is a state for runs.
-- Airline/Propagation: src/airline/NS3/PropagationModel.cc and `splitKV` of
--   src/airline/common.cc. `get_loss_model` and `get_delay_model` choose a model, `split_kv`
--   reads its parameters. Propagation/Splitting is about reading, Propagation/Consuming about
--   what a model takes and leaves.
-- Airline/Startup: `startNetwork` of src/airline/NS3/AirlineManager.cc, up to where the
--   simulator runs, with `setPositionAllocator` and `setNodeSpecificParam`. The simulator's
--   allocators and its real numbers are the parameters `Outside`. Startup/Devices, Startup/Step,
--   Startup/Nodes and Startup/Radio are about the devices, Startup/Described has what a
--   configuration says of the nodes, Startup/Ready is about the whole start.
-- Airline/Main: `main` of src/airline/main.cc with src/airline/Manager.cc, from the
--   configuration file to the simulator. Main/Starting is about a start that succeeds.
-- Airline/PowerLine: src/airline/NS3/PowerLineCommHandler.cc and src/airline/NS3/PLCIface.cc,
--   which are compiled in on request. The simulator's devices are their addresses.
--   PowerLine/Graph models `plcInstall`, with where the nodes are as a parameter.
--   PowerLine/Addresses is about addresses and acknowledgements, PowerLine/Linked about the
--   graph.
-- Monitor: src/utils/monitor.c. `parse_cmd` makes a message of a command and `await_rsp` waits
--   for the answer, which Monitor/Awaiting is about. Monitor/Answers composes the monitor with
--   Airline, as `ask`, and Monitor/Stacks with a stack, as `ask_stack`. Monitor/Page has the
--   answers to the commands of the page's server. Monitor/Thread models `monitor_thread`, on a
--   list of what it receives. Monitor/Client models src/utils/udp_cmd.c, and Client/Seen follows
--   a command from the operator's terminal to Airline and back.
--
-- Bounds. `atoi` is that of the GNU library, which stops at the ends of a long of 64 bits and
-- then keeps 32 bits of it, and `stoi` throws for numbers that are no int.
-- `set_configuration_from_file` recurses on fuel, one unit for each level of included files;
-- files that include themselves never end in the program either. The loops of mac_stats.cc over
-- all nodes take the number of nodes plus one as fuel, which is enough for fewer than 65536
-- nodes. `cmd_parser` takes the length of the command plus one, as each token takes a byte of
-- it. `split_kv` takes the length of its text plus one in the same way. `await_rsp` has the 100
-- rounds of the program, and `msg_reader` recurses on the datagrams that wait.
--
-- Not modelled: the simulator's objects, the handlers of signals, opening the monitor's socket
-- and starting threads, and the routes of the page's server for its files, which are input,
-- output and calls of other libraries for the most part; the scripts; log lines; and the
-- libraries bottle, cytoscape and dagre, which are copies of other projects.
pub mod Base
pub mod Canvas
pub mod Commline
pub mod Airline
pub mod Forker
pub mod Monitor
