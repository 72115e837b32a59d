-- ===== src/Lib.antt =====
-- VGuardrail: the connectors that scan a prompt before an AI tool may have it.
--
-- A connector takes the text that is about to leave, asks the local agent for a decision through the
-- SDK, and lets the text go, asks the user, or stops it. The parts modelled here, and their files:
--
--   * Base: names of the libraries, tests on numbers, lists, texts as UTF-16 code units (Base/Units),
--     calls that may throw (Base/Throws), finite doubles (Base/Number).
--   * Frame: the length-prefixed frames of connector-sdk/src/protocol/envelope.ts (big-endian, 8 MiB)
--     and browser-connectors/chrome/native-host/src/framing.ts (little-endian, 1 MiB), one scheme with
--     a byte order and a cap. `push` is the decoders' method of that name; the length of its buffer is
--     its fuel, and a frame takes four bytes at least.
--   * Json: parsed JSON; Sdk: connector-sdk/src. Sdk/Errors, Sdk/Retry and Sdk/Deadline are
--     resilience/; Sdk/Version is protocol/version.ts; Sdk/Enums, Sdk/Words, Sdk/Decision, Sdk/Codec,
--     Sdk/AuditEvent, Sdk/ScanRequest, Sdk/AgentStatus and Sdk/Violation are models/; Sdk/Client is
--     client/connector-client.ts with client/options.ts.
--   * Correlation: requests in flight and the promises of their callers, as the transport of the SDK and
--     the bridge of the extension keep them. Sdk/Bridge is transport/xpc-bridge-transport.ts, and
--     Browser/NativeBridge is background/native-bridge.ts of the extension; what their children, ports,
--     timers and callers do are steps of a relation, and the theorems hold of all that is reached.
--   * Cli: cli-connectors/framework/src. Cli/Enforcement is policy/; Cli/Bypass is core/bypass.ts;
--     Cli/ScanText is sdk/scan-request.ts; Cli/PolicyClient is sdk/client.ts; Cli/Executor is
--     process/executor.ts; Cli/Connector is core/connector.ts, whose `run` calls all of these.
--     Cli/Line, Cli/Session and Cli/AckStore are the interactive guard, process/line-reconstructor.ts,
--     process/pty-session.ts and util/ack-store.ts; their loops take a byte at least on each turn, so
--     that the length of the input is enough fuel. Cli/Hook is adapters/claude/src/hook.ts under
--     cli-connectors, and Cli/Adapters the index.ts of nine adapters beside it, with util/stdin.ts
--     and util/file.ts.
--   * Browser: browser-connectors/chrome/extension/src. Browser/Contract is shared/contract.ts,
--     Browser/Gate is content/gate.ts and Browser/Upload is content/upload-policy.ts. NativeHost is
--     handlers.ts and protocol.ts of browser-connectors/chrome/native-host/src, and NativeHost/Loop its
--     host.ts.
--   * Browser/Transports is background/transport.ts of the extension with background/transports, and
--     Browser/Background its background/service-worker.ts with the relay of uploads in
--     content/content-script.ts.
--   * Ide: ide-connectors/vscode/src, its scan-service.ts, interceptor.ts, categories.ts (Ide/Categories)
--     and passive-scan.ts (Ide/Passive). Ide/Jetbrains is ide-connectors/jetbrains/bridge/src/handler.ts.
--   * Dashboard: dashboard/lib. Dashboard/Roles and Dashboard/Routes are auth/rbac.ts and
--     auth/rbac-middleware.ts; Dashboard/Auth is auth/jwt.ts and Dashboard/Session is
--     auth/session-store.ts with api/request-context.ts and api/with-rbac.ts, which calls them all;
--     Dashboard/Scope is api/scoped-repository.ts, Dashboard/Pagination api/pagination.ts, and
--     Dashboard/Middleware is dashboard/middleware.ts.
--
-- What the program calls and this repository does not hold is a parameter: the transport, the clock,
-- the source of ids, the schemas of the validation library, the terminal, the child process, the page.
-- They act on a state that the code does not read, passed along by each call. A call that may throw
-- returns an `Outcome`. Calls run one after the other: two connects at once, which share one
-- handshake, are not modelled. The retry loop runs on the number of attempts left, which is the bound
-- of the source's loop.
--
-- Not modelled: the services behind the protocol (agent, backend, policy-engine), the activation
-- of the editors' connectors, the pages of the dashboard, the configuration files and the search for
-- executables, the extension's backend/http-client.ts, whose calls are a parameter of Browser/Transports, and all rendering and logging.
mod Base
pub mod Frame
pub mod Json
pub mod Correlation
pub mod Sdk
pub mod Cli
pub mod Browser
pub mod NativeHost
pub mod Dashboard
pub mod Ide
