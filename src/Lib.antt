-- ===== src/Lib.antt =====
-- The RTEMS applications of SSRL, as far as this library models them: the telnet daemon and its
-- pseudo-terminals (telnetd/), the allocator of aligned memory and the extension that shares the vector
-- unit among tasks (altivec/), the monitor (monitor/), and of miscUtils/ the tools for the network, the
-- memory, tasks and files.
--
-- Telnetd. The daemon's task accepts a connection and asks the driver for a slot: `telnet_get_pty` gives
-- the socket to the first free slot and returns the name of its device. A shell task, or the daemon
-- itself, opens the device three times as its stdio, asks for the password and runs the shell. termios
-- calls the driver back for each open, read, write, control and last close of the device; a read takes
-- one byte from the socket through the telnet protocol machine.
--   Telnetd/Pty/Slot.antt  telnetd/pty.c: `struct pty_tt` and the codes of the protocol
--   Telnetd/Pty/Read.antt  `send_iac`, `handleSB` and `read_pty`, one function for each case of its switch;
--     below it what a stream of bytes does (Stream), the bounds (Bounds), what a byte leaves alone (Frame),
--     and the meaning of sessions (Ready, Silent, Negotiation, Naws, Escape, Session)
--   Telnetd/Pty/Driver.antt  the table `telnet_ptys` with `telnet_get_pty`, `ptySetAttributes`,
--     `ptyPollInitialize`, `ptyShutdown`, `ptyPollWrite`, `ptyPollRead`, `my_pty_control`; Setup has
--     the initialization and the unloading, Slots and Invariant what holds of the table, Steps any sequence
--     of calls, and Claims, Release, Size, Loading single operations
--   Telnetd/Pty/Entries.antt  the entry points `my_pty_open`, `my_pty_close`, `my_pty_read`,
--     `my_pty_write`, `drvPty`, and the callbacks for termios
--   Telnetd/Passwd.antt  telnetd/check_passwd.c: `check_passwd`; Line and Verdict are below it
--   Telnetd/Genpw.antt  telnetd/genpw.c: the options and the definition that is printed; Login, below it,
--     is about that program and `check_passwd` together
--   Telnetd/Daemon.antt  telnetd/telnetd.c: `grab_a_Connection`, `release_a_Connection`, `sockpeername`,
--     the loop of `rtems_task_telnetd` as one function for a round, `spawned_shell`; Daemon/Start.antt
--     has `startTelnetd`, `initialize_telnetd`, `telnetd_dflt_spawn` and `wrap_delete`, and
--     `_cexpModuleInitialize` of telnetd/telnetd.mod.c; Serve and Shell are below it
--   Telnetd/Connection.antt  a connection from its slot to its end: the shell task on the driver, with
--     termios, which counts the opens of a device, as an interface between them; Differs, Frees and
--     Slots are below it
-- Altivec/VecAlloc.antt  altivec/vec_alloc.c: `vec_malloc`, `vec_free`, `vec_calloc`, `vec_realloc`, with
--   Layout, Misuse and Realloc below it
-- Altivec/VecRegisters.antt  altivec/vec_context.c, the assembly of `save_vec_context` and
--   `load_vec_context`: its macros as lists of instructions, and the instructions; Saved is below it
-- Altivec/VecContext.antt  altivec/vec_context.c: `extalloc`, `extfree`, `vec_task_enable`, and the hooks
--   `vec_thread_create`, `vec_thread_start`, `vec_thread_restart`, `vec_thread_delete`,
--   `vec_thread_switch`. Below it Tasks has the events of tasks and of the kernel's dispatcher and what a
--   task sees; Switch, Dispatch, Removal, Blocks, Freed, Enabling, Allocated, Prepared, Attached and
--   Pending are about single operations, Effects and Events about one event, Isolation about any sequence
--   of them, Lost about a task that is deleted inside `vec_task_enable`, Deleting about a dispatch inside
--   `vec_thread_delete`, Frames about the checks of `vec_task_enable`
-- Altivec/VecExtension.antt  altivec/vec_context.c and altivec/ppc_stack_probe.c: `vec_install_extension`
--   with the stack checks, `_cexpModuleFinalize`, and the dummies for `HAVE_NATIVE_ALTIVEC`; Lifetime is
--   below it
-- Uptime.antt  miscUtils/task_uptime.c: `miscu_get_idle_uptime`, `miscu_get_task_uptime`,
--   `miscu_cpu_load_percentage`, `miscu_cpu_load_percentage_init`; Window is below it
-- Net/Checksum.antt  `ones_sum` and `ip_cksum` of miscUtils/traceroute.c and `rtems_ping_cksum` of
--   miscUtils/icmpping.c, over 16-bit words; Sums is below it
-- Net/Traceroute.antt  miscUtils/traceroute.c: `_tr_open`, `do_traceroute`, `traceroute_result_free` and
--   `traceroute`; Frame has `_tr_make_ip_frame` and `_tr_make_icmp`, Hops and Results are below it
-- Net/Ping.antt  miscUtils/icmpping.c: the operations of `rtems_ping_t` and `rtems_ping`; Blocks,
--   Replies and Verdict are below it
-- Net/Ifconf.antt  miscUtils/ifconfi.c: `ifconf`, `ifattach` and `rtconf`; Interfaces is below it
-- Net/Sockbuf.antt, Net/Sockstats.antt  miscUtils/sockstats.c: what `getsbstats` counts and `prsbstats`
--   prints, with Tally below it; `rtems_bsdnet_show_socket_stats` with `LOCK` and `UNLOCK`, with Locking
-- MemUtils.antt  miscUtils/memUtils.c: `md`, `doWrite`, `coredump`, `valdig` and `getn`; Modify has `mm`,
--   Bat has `pbat`, Commands the main program; Dump, Image, Coredump and Numbers are below it
-- Monitor.antt  monitor/call.cc: `rtemsMonitor` as steps of any number of tasks on its mutex and its busy
--   mark, with Exclusion below it; Session has the lines and the commands of one visit, and `fnwrap`;
--   Registry has the class `CallUtils`; Reports has monitor/stack.c and monitor/memusage.c, with Trace
-- Spawn.antt  miscUtils/loop.c: `wrap`, `spawn`, `spawnUtil`, `loopUtil`, and miscUtils/exectime.c, with
--   Ownership and Timing below it
-- Console.antt  `sttyspeed` of miscUtils/ttyconfi.c and `cat` of miscUtils/fileUtils.c, with Outcome
-- Prelude.antt  the names that all share; Tests.antt  runs at concrete inputs.
--
-- State is a record that each operation takes and returns, with the calls it makes of the system as a
-- list of events in their order. What the system answers (sockets, termios, `crypt`, `malloc`, the
-- clock, RTEMS' status codes) is an argument. A NULL pointer that is used and an access outside a table
-- are `none`. Machine words are natural numbers, with the wrap-around written out where the source
-- computes in them; addresses are those of a 32-bit target, frames those of a big-endian one. Where tasks
-- share a state, as in Monitor.antt, each access to it is a step of one task in any order.
--
-- Loops. The password's three tries, the retries of a hop and the hops are recursion on these numbers,
-- and a turn of the network is a list of packets with what comes behind it, packets of others without
-- end included: then the result is `none`. Four loops of
-- miscUtils/memUtils.c are bounded by a number of turns: `md` by its count, as each turn moves on by a
-- byte at least, `doWrite` by the number of bytes, the rounding of `coredump` by 31 turns, and `mm` by
-- the number of lines. The loop of `cat` is bounded by the size of the file, as a read gives a byte at least.
--
-- Not modelled: telnetd/des.c (a copy of another library; `crypt` is a parameter), miscUtils/ttcp.c
-- (third-party code), miscUtils/miscTools.c (listings of what RTEMS reports), the messages on the
-- console and in help tables. Of telnetd/pty.c the variant without termios, and the C++ object that loads the driver,
-- are left out, of miscUtils/memUtils.c the statistics, of miscUtils/sockstats.c the sum of
-- fractions that NO_FLOATS replaces, of altivec/vec_context.c the variant ALL_THREADS_ALTIVEC,
-- which needs a special build of RTEMS, and the hints to the cache.
--
-- The vector unit. A step of the model is an operation as a whole: the code disables dispatching around
-- the accesses to what it shares, or runs within the dispatcher, and the hooks of tasks that are
-- deleted, started and restarted are taken to run as wholes but for Deleting.antt. A call of
-- `vec_task_enable` is two steps, since dispatching is enabled in between, once it has a block and
-- before the task has the context, and other tasks may run, call the function themselves, and delete
-- or restart the one whose call it is. The state then has the variable `tcbext` of each call.
-- A dispatch is a step with or without a use of the vector unit between its hook and the context switch.
-- The kernel is taken to call the hooks as it documents, and its workspace to give blocks of words
-- that lie apart.
pub mod Altivec
pub mod Console
pub mod MemUtils
pub mod Monitor
pub mod Net
pub mod Prelude
pub mod Spawn
pub mod Telnetd
pub mod Tests
pub mod Uptime
