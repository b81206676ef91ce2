-- ===== src/Lib.antt =====
-- yar.h, main.c, cmd.c, tty.c, fs.c, yarfs.c, hexdump.c: yar, which runs command lines behind ptys.
--
-- yar starts processes, each behind a pty of its own (the command tty), and offers each to clients
-- through a second pty (the client tty). What a process prints goes to its client tty and, whole
-- lines at a time if so asked, to the broadcast tty; what is typed on the broadcast tty goes to
-- every process. A monitor tty takes commands that add, delete and list processes and set options.
-- A FUSE file system shows the processes and ttys. One thread waits with epoll and hands each event
-- to the handler of its descriptor.
--
-- The files, with the code that each models:
--   Kernel             the system calls: the calls that the code makes, and their answers
--   State              tty_t, cmd_t, mon_t, globals_t, evntdesc_t (tty.h, cmd.h, yar.h, event.h)
--   Monad              running C code: state passing, and the ways in which a run can stop
--   Evnts              the event bits and the results of handlers (event.h)
--   Tty, Tty/Io        tty.c and tty.h: ttyCreate, ttyCleanup, ttyWriteBuf, ttyReadChar,
--                      ttyNotifyEvent and their helpers
--   Cmd/Ring           cmd.c: the circular buffer of cmdttyProcessOutput
--   Cmd/Output         cmd.c: cmdttyProcessOutput, cmdttyDrain
--   Cmd/Life, Cmd/Stop cmd.c: cmdInit, cmdStart, cmdCreate; cmdStop, cmdCleanup
--   Cmd/Dump, Tty/Dump cmd.c: cmdDump; tty.c: ttyDump, ttyPortSpace
--   Cmd/Events         cmd.c: cmdPidEvent, cmdCmdttyEvent, cmdCltttyEvent, cmdCltttyNotify
--   Registry           the table of commands, a uthash table there and a list here, and cleanup
--                      (main.c)
--   Spec               main.c: cmdspecParse
--   Bcst               main.c: GBLSAddCmd, GBLSCmdsWriteChar and the handlers of the broadcast tty
--   Mon, Mon/...       main.c: the monitor's table, its commands, monProcess and monEvent
--   Args               main.c: the first value of GBLS, and argsParse
--   Startup, Startup/... main.c: main, GBLSInit, monInit, monttyCreate, sigprocInit, logopen, the
--                      registrations of theLoop; fs.c: fsInit, fsRegisterEvents
--   Sig                main.c and yar.h: sigEvent and the blocked signals
--   Loop               main.c: theLoop; fs.c: fsEvent
--   Ascii              yar.h and main.c: the names of characters
--   Hexdump            hexdump.c
--   Yarfs, Yarfs/...   yarfs.c: the files that show the commands and ttys
--   Fs, Fs/...         fs.c and fs.h: the inode table, directories and items, the requests of the
--                      kernel, the start and the end (Session, with yarfsCreate)
--   Base, Base/...     names of the libraries, Boolean tests and lists over native numbers
--   Frame, Frame/...   rules for what an operation leaves alone
--   Tests, Tests/...   concrete values, and theorems at them
-- The modules below a component's (Tty/Io/Discard, Cmd/Ring/Refine, Cmd/Stop/Outcome, ...) prove.
--
-- A function that updates *this takes the record and returns the new one. A function of the code is a
-- computation of the monad: it reads and writes the globals, makes calls, and may stop because an
-- assertion fails, because the process exits, or because it does something undefined. The answers of
-- the system calls are a record of functions of all the calls made before, the parameter of the
-- model, so a theorem about every environment holds whatever the kernel answers. A -1 that the code
-- tells apart from a count or a descriptor is the none of an option.
--
-- Times are in nanoseconds, delays integers of them in place of the code's doubles. Counters of
-- 64 bits wrap at 2 ^ 64. The int that ttyWriteBuf takes from such a counter is its low 32 bits,
-- read as negative from 2 ^ 31 on. The int bufof of a command is undefined from 2 ^ 31 on, as is
-- a dump of that many bytes. The ints that count opens, restarts, matched characters, ready
-- commands and the verbosity are natural numbers, and are taken to stay below 2 ^ 31. The loops
-- that wait for the outside world (the death of a process, the draining of a tty) run for a
-- number of rounds that is part of the environment and stop with an outcome of its own if that
-- is too few; the wait for a death needs one round more than there are polls before the one that
-- succeeds. The rounds of theLoop are the list of what epoll_wait returns.
--
-- The file system has a state and a monad of its own (Fs): a file is a place of a heap in which freed
-- files are marked, and a use of one is undefined. The event loop passes a readable descriptor of
-- libfuse on to libfuse, which makes the requests that Fs/Calls models. The recursion of
-- fsRemoveitem runs on fuel; the clean-up gives it the number of inodes, and each step frees one.
--
-- The file system that main starts is a result of its own beside the globals. Of fs_t the globals hold
-- what the rest of yar reads, and cleanup of the globals only notes that fsCleanup is called there;
-- what fsCleanup does is in Fs/Session. An exit runs cleanup once at_exit is set.
--
-- Not modelled: the arguments for libfuse and what libfuse does with a reply, the usage text,
-- the text of cmdDump and ttyDump around the bytes that they dump, messages of errors and debug
-- output, and the child side of cmdStart. Every call of cmdDump but the one in GBLSDump is made
-- where the code makes it; the dumps of ttys that a verbosity of 1 or 2 asks for in ttyCreate,
-- ttyNotifyEvent and ttyCleanup, and GBLSDump, which argsParse calls at a verbosity of 1 or
-- more, are left out.
-- What getopt returns is a list of options with their arguments.
pub mod Base
pub mod Kernel
pub mod State
pub mod Monad
pub mod Frame
pub mod Evnts
pub mod Tty
pub mod Yarfs
pub mod Cmd
pub mod Registry
pub mod Spec
pub mod Bcst
pub mod Mon
pub mod Sig
pub mod Loop
pub mod Fs
pub mod Args
pub mod Startup
pub mod Ascii
pub mod Hexdump
pub mod Tests
