-- ===== src/Lib.antt =====
-- T-Bridge: shared terminals through a relay that cannot read them.
--
-- A host offers its terminal under a share code, a guest asks to join with that code, the host lets
-- it in, and from then on the relay forwards what each end sends to the other, encrypted end to end.
--
-- The parts, and the files that model them:
--   Base, and Base/*             shared names, Boolean tests, association lists for `Map`, lists.
--   Protocol, Protocol/Legacy    packages/protocol/src/index.ts: identities and messages.
--   Protocol/Envelopes, Protocol/Codec   the same file: envelopes of version 2, and what is decoded.
--   Crypto, Crypto/*             packages/crypto/src/index.ts: the session cipher. Node's crypto and
--                                base64 are the parameter `Primitives`.
--   Server/RateLimiter           apps/server/src/rate-limiter.ts: the sliding window.
--   Server/SessionManager        apps/server/src/session-manager.ts: rooms, share codes, sessions.
--   Server/Relay                 apps/server/src/main.ts: the event handlers over the two above.
--   Network/PeerConnection       packages/network/src/peer-connection.ts: the encrypted connection of
--                                two peers in the terminal application, over Crypto. `JSON` is the
--                                parameter `Json`.
--   Network/RelayWorker          packages/network/src/relay-worker.ts: the relay inside the terminal
--                                application, which pairs and routes by share code and identity.
--   Network/NetworkManager       packages/network/src/network-manager.ts: the connection to the relay
--                                and the peer connections that it holds.
--   Engine/Session, Engine/RemoteSession   packages/engine/src: local and remote sessions.
--   Engine/ExecutionEngine       packages/engine/src/engine.ts: the engine that holds the sessions,
--                                over the interface that both kinds of session fill.
--   Tui/PaneManager              packages/tui/src/components/pane-manager.ts: panes, focus, layout,
--                                and the scrolling of terminal-pane.ts beside it.
--   Tui/Keys                     packages/tui/src/screen.ts: the key that a chunk of input stands for.
--   Tui/CommandPalette           packages/tui/src/components/command-palette.ts: the actions that a
--                                query finds, and the one that Return runs.
--   Tui/CommandBar, Tui/Sidebar, Tui/Toast   command-bar.ts, sidebar.ts and toast.ts beside it.
--   Tui/App, Tui/App/*           packages/tui/src/app.ts: the terminal application over all of these,
--                                the engine and the connections. What a step takes from outside is
--                                the parameter `Env`.
--   Cli/Policy, Cli/Policy/Commands   apps/cli/src/permissions: who may join unasked.
--   Cli/Terminal/Guest           apps/cli/src/terminal/remote-guest.ts: the guest's command.
--   Cli/Terminal/Host            apps/cli/src/terminal/remote-host.ts: the host's command. Encoding
--                                texts for the cipher is the parameter `Encoding`.
--   Cli/Terminal/Departure       the relay and the two commands, where one end goes.
--
-- How the state corresponds. Objects that the source shares between maps, the rooms, live in a heap
-- (`SessionManager.heap`), and the maps lead to places in it; a socket is a number. The relay's
-- `Relay` holds the module's variables, which sockets are open and which have handlers, and the
-- timers that run; what is sent and closed is appended to `out`. Times are milliseconds and come
-- with the event, as do fresh session ids and the outcome of decoding. What throws or returns an
-- `ok` flag in the source is a sum.
--
-- Bounds. Loops are structural recursion over the list that the source iterates, so no fuel is
-- used, but for the square root of the number of panes, which is searched for among the numbers
-- up to it. Counters of the cipher are bounded by 2 ^ 64, where `writeBigUInt64BE` throws.
--
-- Not modelled: the embedded relay of the host's command, log lines, terminal drawing with the
-- screen's write buffer, the terminal view of apps/cli/src/tui, the pseudo terminal, files and the
-- keychain, command line dispatch.

pub mod Base
pub mod Cli
pub mod Crypto
pub mod Engine
pub mod Network
pub mod Protocol
pub mod Server
pub mod Tui
