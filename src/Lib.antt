-- ===== src/Lib.antt =====
-- lauSim injects simulated faults into a cluster. A server asks a fault manager plugin, tic by tic, which
-- nodes or components fail, and hands each fault to a communication plugin; on a node, a client receives
-- it by MQTT and writes a command to a fifo, which the backend inside (or beside) the application reads
-- and carries out.
--
-- Files, and the sources whose functions they define under the same names:
--   FaultManager    include/lausim/node.h, fault_manager.h, plugin.h: nodes, faults, the interface of a
--                   fault manager (a record over its state), `Run` for undefined behaviour, `Answer` for
--                   return codes; `session` is the server's use of a manager: the nodes, then tics.
--   Transcribe      plugins/transcribe/transcribe.c: records what a nested manager returns; Start has
--                   init and post, Roles post over the server's plugin manager.
--   Replay          plugins/replay/replay.c: State (variables, get_tic_num), Nodes (get_nodes), Tic (tic,
--                   get_fail, init); Settled has the facts that hold for any file.
--   Recording       the format that the two share, and the round trip: Format, Names, Lines (texts),
--                   Transcript (writing), Nodes, Tics, Sections (reading), Replayed (both), OfRandom;
--                   Served has the server over both.
--   Random          plugins/random/random.c, random.h: Defs; Health (tics), Names and Init (init); Memory
--                   has the blocks that it allocates and frees.
--   Server          srv/server.cpp, server.h: the loop of the tics, what is dispatched, the states of the
--                   nodes; Tics, Nodes and Ready have its properties.
--                   Clock has the clock of the tics, Messages on_message, Start, Hooks and
--                   Connected the initialization, Reception the way of a report from the MQTT plugin
--                   to the state of its node.
--   Com             include/lausim/com.h, and the calls of such plugins by srv/server.cpp; Dispatch has
--                   what the plugins are told in a tic.
--   Main, Options   srv/main.cpp, options.cpp: Main has the stages, Roles the configuration, Loop the tics,
--                   Synced the wait for the nodes before them; Program is `main` as a whole, Codes and
--                   Ends have how it ends; Table has the table of the plugins.
--   Config          srv/config.cpp, config.h: Keys has the keys; Slots and Loaded have what a
--                   configuration file leaves.
--   PluginManager   srv/plugin_internal.cpp, plugin_internal.h; Library has srv/library.cpp, and Lookup,
--                   Entries, Invariant and Growth have the properties of the map.
--   StdoutLog       srv/stdoutLog.cpp; Same compares it with the file logger.
--   Filelogger      plugins/filelogger/filelogger.c and the level table of include/lausim/types.h.
--   Client          client/src/client.c: the loop that writes commands; Start and Reported have what comes
--                   before it.
--   Backend         client/src/backend.c, client/include/backend_if.h: the loop that reads them, over the
--                   functions of a backend (`Actor`); Finish has its properties. Start has
--                   the fifo from its start to its end, Removed what is left of it.
--   Preload         client/src/preload.c, preload.h: Defs; Sockets and View (the vector as a set),
--                   Memory (the requests to the allocator), Start and Life (the constructor and the
--                   destructor).
--   Privileged      client/src/privileged.c; Start has main.
--   Laik            com/laik/laik_intf.c, the agent in an application; Messages, Memory.
--   Socket          src/socket.cpp, socket.h; Life has what a socket leaves open.
--   Launcher        client/launcher/launcher.c: the options and what is started; Last has what counts,
--                   Supervision the wait for the client and the end.
--   Mqtt            client/src/mqtt.c: the faults that arrive; Start has the connection.
--   Mosquitto       plugins/mosquitto/com_mosquitto.cpp: the message of a fault; Plugin has the connection
--                   and the functions of the plugin, Runs its start and what it publishes.
--   Echo            plugins/echo/echo.c.
--   Delivery        Fifo (client to backend), Topic (plugin to client), Nodes (server to backend),
--                   Handshake (clients to server).
--   Libc            the functions of the C library that the sources use, executable: getline, strchr,
--                   strstr, strtok, strcmp, strtoull, strtol and the number formats, with their laws.
--   Base            Boolean tests, lists over native numbers, integers of 32 and 64 bits with their wraps.
--   Tests           runs on concrete data, and each theorem with parameters at one.
--
-- State is passed explicitly: a record per file of C holds its static variables, a list stands for an
-- array with its length, an Option for a pointer that may be NULL. Bytes are numbers, texts lists of
-- them. What is not under the repository is an argument: whether the allocator grants a request (calloc,
-- malloc, realloc, where the code tests the result or writes through it), rand with its state, what
-- mosquitto_loop delivers, what select and getline return, the hooked functions of the C library, the
-- plugin manager's functions. Loops are recursion on the lines, nodes, events or batches that are left;
-- only the printing of a number is on fuel, n + 1 rounds for n, which is enough since each round divides
-- by the base. Each section under a mutex is one step.
--
-- The loop that ends a tic is on fuel as well: more than the tics that the clock is late at most;
-- Spans has it for any length of a tic. The functions of the C library and of the system that
-- Backend.Start, Preload.Start, Privileged.Start, Socket and Laik call are records of functions
-- over the state of the system; where a property depends on what they do, their documented
-- behaviour is a record of laws (IsFiles, IsNetwork).
--
-- The loops of Main, which wait for a signal or a limit, are on fuel too: one round more than the limit,
-- or than the rounds before the request to end; a tic in them reads the clock, with the fuel of Clock.
-- `main` hands the plugin manager and the variables of all plugins to the hooks, the fault manager, the
-- actors and the application alike, which may change them (Program). The dynamic linker, getopt, the
-- file of the configuration, the mosquitto library and protobuf are arguments.
--
-- Not modelled: log output (but for the two loggers themselves, and the lines of on_message),
-- freeing memory at cleanup (but for the random plugin), allocation failures in the tic of the
-- replay plugin and in the client, what a write past an allocation overwrites (Preload and Mqtt
-- take from the allocator how much its blocks hold, and are undefined behind that), the file
-- system, processes and signals behind the calls of them and the threads of the MQTT library. The
-- time stamps of the server's clock are numbers without a bound.
pub mod Base
pub mod Launcher
pub mod Libc
pub mod FaultManager
pub mod Filelogger
pub mod StdoutLog
pub mod Transcribe
pub mod Replay
pub mod Recording
pub mod Random
pub mod Backend
pub mod Client
pub mod Delivery
pub mod Preload
pub mod Privileged
pub mod Mqtt
pub mod Main
pub mod Mosquitto
pub mod Com
pub mod Echo
pub mod Socket
pub mod Laik
pub mod Config
pub mod Options
pub mod PluginManager
pub mod Server
pub mod Tests
