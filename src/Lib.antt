-- ===== src/Lib.antt =====
-- A model of the debug bridge between an MCP server and a QNX target: the DSMSG client
-- (internal/qnxdbg), which talks to pdebug in frames, the client of the GDB remote protocol
-- (internal/debug), the qconn client with its file service (internal/qconn), the tools of the
-- MCP server (internal/mcpserver), and the mocks that the repository tests against
-- (internal/mockqnx).
--
-- The parts and their files:
--   Prelude      Boolean tests, lists measured by native numbers, bytes and machine words, texts and
--                numbers as strings and strconv have them, and an outcome with the state that a
--                failing call leaves too.
--   Wire         A connection: a remote end that answers each write, the bytes that wait to be
--                read, the writes made, writes that fail, and how the stream ends. It stands for
--                net.Conn and bufio.Reader; the clients read and write through it.
--   Qnxdbg       internal/qnxdbg. Protocol is protocol.go: frame, escape, checksum. Client is
--                client.go: readFrame, readResponse, transactSub, handshake. Commands, Run, Info,
--                Memory and Launch are commands.go. Scanner and Decode are decode.go. Target says
--                what a target must do to serve memory.
--   Debug        internal/debug. Codec and Rsp are rsp.go: escape, decode, SendPacket, ReadPacket,
--                Command. Session is session.go.
--   Qconn        internal/qconn. Prompt, Frame, Telnet and Noise are framing.go: the pattern of a
--                prompt, the framed connection, stripIAC and the line filters. Client is client.go,
--                File and Transfer are file.go, Cntl is cntl.go and the memory access of proc.go,
--                Launcher is escapeArg of launcher.go, Exec its Exec and Run and Pattern the pattern that finds a
--                process id, Proc and Segments the memory maps of proc.go, Sysinfo the parsers of
--                pidin listings of sysinfo.go, and Queries the calls that ask for them.
--   Mcpserver    internal/mcpserver, tools_debug.go: Sessions are the debug sessions of a server,
--                Debug the tools on them, Calls a client's calls one after the other, and Blocks the
--                texts that tools show of raw replies. These tools call the client of Qnxdbg.
--                Target is the qconn client of server.go and tools.go, which the tools of the other
--                files share, Tools are these tools, and Base64 is how they show content. A tool
--                runs on the client that the last call has left, and commands through the shell
--                on connections of their own.
--   Mockqnx      internal/mockqnx. Dsmsg is dsmsg.go, Rsp is rsp.go, Qconn is server.go and Shell is
--                shell.go: a served connection is a function of the writes that reach it, so that
--                client and mock run against each other. Below Qconn, Serve is the loop of a
--                connection, Requests, Exchange and Commands say what the daemon makes of a request,
--                Link, Chunks, Answers and Calls what the client makes of the answer, and Reads,
--                Ranges, Memory, Writes, RoundTrips, Services, Connects and Execs are whole calls of the client.
--   Config       internal/config/config.go, with the defaults and the bearer token of
--                internal/mcpserver/server.go.
--   Dumps        internal/obs/log.go and internal/proxy/proxy.go: redaction, and dumps of bytes.
--   Tests        The theorems applied to concrete input.
--
-- A method of the source is a function from the client to an outcome, which holds the value or
-- the error, and the client that is left. An int of the source that may be negative is a signed
-- number of the model, machine integers wrap as written, and bytes are numbers whose range a
-- theorem names where it matters. A panic is an absent value or an error of its own.
--
-- Fuel: readResponse gets one round more than there are bytes to read, as every round takes two
-- at least; ReadMemory and WriteMemory get one more than the bytes asked for; the scanner gets one
-- more than the bytes it holds, and stripLeadingNoise as much as its text, as every round of theirs
-- takes one byte at least. ListThreads takes its fuel from the caller, since a stub may send ids
-- for ever. The loops of the framed connection and of ReadFile take theirs from the connection's
-- field rounds, since a remote end that answers telnet commands may send for ever too; WriteFile and
-- ReadFileRange get one round more than the bytes asked for, as a round that goes on moves one at
-- least.
--
-- How much of the input the buffered reader holds, which readUntilPrompt asks, is a function of what
-- was written and what waits, of which nothing is assumed.
--
-- Not modelled: dialling, deadlines, logging, the serial port, the start of pdebug, the
-- listeners of the mocks, the HTTP side of the MCP server, the file and the flags of the
-- configuration, and the proxies. What dialling gives is a list of connections, with nothing where it fails.
pub mod Prelude
pub mod Wire
pub mod Config
pub mod Dumps
pub mod Qnxdbg
pub mod Debug
pub mod Qconn
pub mod Mcpserver
pub mod Mockqnx
mod Tests
