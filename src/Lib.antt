-- ===== src/Lib.antt =====
-- DeskSSH: a graphical desktop over plain SSH. This library models the parts of the program that
-- decide what is sent to a host, what its answers mean, which hosts are trusted and what the desktop
-- shows, and proves what they promise.
--
-- The parts and how they interact. A browser shows a desktop (packages/web) and talks to a gateway
-- (packages/server), which keeps the SSH sessions. A session runs commands through an executor
-- (packages/core): an adapter for the system of the host turns each call of the capability contract
-- into a shell command and parses the output; a log records each command; an elevated executor wraps
-- commands in sudo.
--
-- Files, and the code they model:
--   Base, Js: names and lemmas that all share, and JavaScript's strings (lists of UTF-16 code units),
--     numbers, maps and the regular expressions of the source. No file of the repository.
--   Core/Shell: packages/core/src/adapters/shell.ts. Core/Shell/Lexer describes how a POSIX shell reads
--     a command line, independently of the code.
--   Core/Exec, Core/Result: packages/core/src/exec/types.ts and contract/result.ts. A promise is an
--     outcome beside a state of the world; the host is any such function.
--   Core/Types, Core/Capabilities: packages/core/src/contract/types.ts and capabilities.ts. A call of
--     the contract is a value, so that a statement can range over all calls.
--   Core/Debian: packages/core/src/adapters/debian.ts. Files, Sections, Processes and Services hold the
--     parsers, Adapter the commands and the methods of DebianAdapter. Files/Found, Processes/Output
--     and Sections/Report describe what `find`, `ps` and the metrics command print.
--   Core/Os, Core/Registry: packages/core/src/adapters/os.ts and registry.ts.
--   Core/Log, Core/Elevation, Core/Audit: packages/core/src/transparency/log.ts and
--     privilege/elevation.ts, and what they promise together.
--   Core/Session: packages/core/src/session/ssh-session.ts and types.ts.
--   Server/Manager, Server/KnownHosts, Server/Opener: packages/server/src/session-manager.ts,
--     known-hosts.ts and opener.ts.
--   Server/Gateway: packages/server/src/gateway.ts and elevate.ts. Body validates the fields of a
--     request, Routes decides what a request asks for (`handle` up to the call that it makes),
--     Elevated runs a capability call (`runCap`, `makeElevated`), Reading collects the chunks of a
--     body and answers a failure, Handling carries a decision out on the registry and responds.
--   Server/Terminal: packages/server/src/terminal.ts, as a state machine over the events of the socket
--     and of the shell.
--   Server/Static: packages/server/src/static.ts.
--   Web/Paths, Web/Format, Web/Mime: packages/web/src/features/desktop/apps/lib.ts.
--   Web/Windows: packages/web/src/features/desktop/useWindows.ts, the active window of Desktop.tsx, and
--     the pulls of the pointer of Window.tsx.
--   Web/I18n: packages/web/src/i18n.
--   Web/Client: packages/web/src/api/gateway.ts. Each function that is called with a session id is a
--     constructor of `ClientCall`; RoundTrip and Errors set it against the gateway.
--   Web/Elevation: packages/web/src/features/desktop/useElevation.tsx. The hook is a state that events
--     change; the promises of `run` are numbered, and what they were resolved with is recorded.
--   Web/Files, Web/Monitor: packages/web/src/features/desktop/apps/FilesApp.tsx and MonitorApp.tsx.
--     Monitor/Live has the window's state and its polls.
--   Web/Viewer, Web/Pdf, Web/Stallman, Web/Documents: packages/web/src/features/desktop/apps/
--     ImageViewerApp.tsx, PdfViewerApp.tsx, StallmanApp.tsx and DocumentsApp.tsx, as state machines
--     over what the user does and the responses. Web/Bytes has the base64 of apps/lib.ts.
--   Web/Terminal: packages/web/src/features/desktop/apps/TerminalApp.tsx. Bridged sets it against
--     Server/Terminal.
--   Web/Desktop: packages/web/src/features/desktop/Desktop.tsx and apps/index.tsx.
--   Web/Login: packages/web/src/App.tsx and features/login/LoginForm.tsx.
--   Tests: the theorems at concrete inputs.
--
-- Correspondence. A function has the name of the source's in lower case with underscores
-- (`parseFindLine` is `parse_find_line`), a class is a record with functions, `undefined` and `null` are
-- `none`, an exception is the outcome `threw` with its message. All loops are structural recursion, but for
-- two that use fuel: the digits of a number, with the number plus one, and the search for a free name,
-- with one round more than there are names, which is shown to be enough. Integers are
-- unbounded where the source has doubles; sizes and times stay exact below 2^53. Times in fractions of
-- a second are ratios.
--
-- Parameters. The SSH client, the clock, random ids, hashes, base64, UTF-8, JSON, `fetch`,
-- `localeCompare`, Number, and the path functions of Node are arguments. The opener's theorems assume
-- of the client that it rejects a key that its verifier rejects and does not connect without asking,
-- as its documentation says.
--
-- Not modelled: the JSON of what a session answers, and JSON text; what React renders; the text editors,
-- pdf.js and xterm, which are third-party components whose results arrive as events; the polling of
-- the command history; the harness and the command line, which are input and output
-- on a console.
pub mod Base
pub mod Js
pub mod Core
pub mod Server
pub mod Web
pub mod Tests
