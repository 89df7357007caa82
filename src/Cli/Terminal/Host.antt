-- ===== src/Cli/Terminal/Host.antt =====
-- apps/cli/src/terminal/remote-host.ts: `shareTerminal`, the command of the host.
--
-- The state is the variables that its closures share, as for the guest. A shell's handlers hold the
-- socket and the cipher that were there when it was spawned: the ciphers are objects on a heap, and
-- `ptys` says what each running shell holds. A request for access waits in `asking` while the policy
-- is read and while the host is asked; the policy is that of the moment it is read. Spawning
-- succeeds. The embedded relay, the spinners and the boxes are left out.
mod Shell
mod Events
unfoldable pub use Shell.*
unfoldable pub use Events.*
pub mod Consent
pub mod Ending
pub mod Stranded
mod Tests
