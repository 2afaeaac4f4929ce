-- ===== src/Lib.antt =====
-- DockSight's server, the part of the platform that stands between the dashboard and the agents on the
-- Docker hosts, and the logic of the dashboard itself, a web client in React. An agent opens a
-- WebSocket to the server and sends registrations, heartbeats, container lists, results, log lines and
-- samples of its host; the server asks it for lists, sends it commands, and answers the dashboard over
-- HTTP from the database and from two stores in memory.
--
-- Which file is about which part:
--   Protocol, Protocol/*   packages/protocol/src: the envelope, the message types and the payloads
--   Json, Dict, Text       the JSON values, the `Map` and the texts of the language, where the program
--                          uses them
--   Parser, Parser/*       apps/server/src/agents/container-listed.parser.ts
--   Inventory, */Laws      apps/server/src/agents/container-inventory.service.ts
--   HostMetrics, */Laws    apps/server/src/metrics/host-metrics.service.ts
--   Gateway/State          the fields of apps/server/src/agents/agents.gateway.ts, and `send`
--   Gateway/Calls          requestContainerList, sendContainerCommand, inspectContainer,
--                          startLogStream, stopLogStream
--   Gateway/Disconnect     handleDisconnect and its loops
--   Gateway/Handlers       the handlers of each message but the samples
--   Gateway/Messages       handleMessage and handleHostMetrics
--   Gateway/Step           one event of the runtime, an agent or the server, and what is reachable
--   Gateway/Ledger/*       what a gateway promises of its promises, and the proof that it keeps it
--   Gateway/Cleanup, Routing, Connections   what single operations leave behind
--   Agents, Agents/*       apps/server/src/agents/agents.service.ts over Prisma's `agents` table
--   Hosts, Hosts/Laws      apps/server/src/hosts/hosts.service.ts and hosts.controller.ts
--   Http                   the exceptions, mapAndThrow and mapStreamError
--   Containers, */Laws     apps/server/src/containers/containers.service.ts and
--                          containers.controller.ts
--   Users, Users/*         apps/server/src/users/users.service.ts and password.util.ts, and
--                          apps/server/src/setup/setup.service.ts
--   Auth, Auth/Laws        apps/server/src/auth: auth.service.ts, jwt-auth.guard.ts, roles.guard.ts
--   Server                 the routes of the controllers with their decorators, behind the two guards of
--                          apps/server/src/app.module.ts: one HTTP request
--   Server/Dto             the DTO classes and their checks
--   Server/Keeps, Guarded  what a request must carry for which effect
--   Server/FirstAdmin      the setup, the login after it, and what its token can do
--   Server/Rename          the renaming of a host over HTTP
--   Server/Config, */*     apps/server/src/auth/auth.config.ts, common/database/database.config.ts and
--                          resolveCorsOrigin of main.ts
--   Web/LogStream/*        apps/web/src/hooks/useContainerLogs.ts: Frames and Chunk read the stream of log
--                          lines, View is the state that the page shows
--   Web/Tokens, Web/Api    apps/web/src/services/tokenStorage.ts and api.ts
--   Web/Session, */*       apps/web/src/stores/auth.ts and services/auth.service.ts
--   Web/Screens, */*       apps/web/src/app/App.tsx, components/auth/RequireAuth.tsx, and LoginPage.tsx and
--                          SetupPage.tsx of features/auth
--   Web/Confirm, */*       apps/web/src/components/ConfirmProvider.tsx
--   Web/Commands, */*      apps/web/src/hooks/useContainerCommands.ts, with the request of services/hosts.ts
--   Web/Table, */*         what apps/web/src/components/ContainerTable.tsx and ui/pagination.tsx compute
--   Web/RowActions, */*    the buttons and menus of ContainerTable.tsx and ContainerInspectDrawer.tsx
--   Web/Environment, */*   the environment variables of ContainerInspectDrawer.tsx
--   Web/LogsView, */*      the filter, the levels and the copied text of apps/web/src/components/LogsViewer.tsx
--   Web/Metrics, */*       apps/web/src/lib/metrics.ts and hooks/useHostMetrics.ts
--   Web/HostName, */*      apps/web/src/lib/host-name.ts
--   Web/Rename, */*        apps/web/src/components/RenameHostDialog.tsx and hooks/useRenameHost.ts, up to the
--                          row in the server
--   Web/HostInventory, */* apps/web/src/hooks/useHostInventory.ts
--   Web/HostList, */*      the counts, the filter and the search of hosts in HostsPage.tsx and Topbar.tsx
--   Web/Selection, */*     the entry that MetricsPage.tsx and HostDetailsPage.tsx have selected
--   Web/Views, */*         which of its views HostsPage.tsx and HostDetailsPage.tsx show, and the tab in the URL
--   Web/ErrorBoundary, */* apps/web/src/components/ErrorBoundary.tsx
--   Web/Format, */*        shortImage and osLabel of apps/web/src/lib/format.ts
--   Web/Toasts, */*        apps/web/src/components/ToastProvider.tsx
--   Web/Theme              apps/web/src/stores/theme.ts
--   Web/Status             apps/web/src/lib/status.ts and ports.ts
--   Base                   what the others share; Tests holds the concrete runs
--
-- How the state is modelled. A gateway is a record of the source's maps, the sockets by a number that
-- stands for their identity, the running timers, and a log of what was done to the outside. A promise
-- is a ticket: the gateway resolves or rejects it by an entry of the log, and the timer of a promise
-- has its ticket. A function that awaits the database is two steps, and any event may come between.
-- The events of Gateway/Step come in any order; loops are recursion on the entries they run over. The
-- one loop on fuel is that of Web/LogStream/Frames, which cuts frames out of a buffer: it has as many
-- turns as the buffer has characters, and each turn that finds a frame takes at least two of them. A
-- part of the web client is its state and a list of events: what the user does, what React runs after
-- it, and each answer that the client awaits. The setters that one event calls are one step. An answer
-- carries the token that its call had read when it was sent, so that a late answer is an event like
-- any other. An HTTP request is one step, up to the promise that a command waits for: the two steps of
-- a handler that awaits the database stand in Containers and Gateway, and the queries of the first setup,
-- with what other calls do between them, in Users.
--
-- What is a parameter: the floating-point numbers with the tests the program makes on them (Numbers),
-- JSON.parse and Date parsing (Runtime), Prisma's client with what it documents of a unique key, an
-- update, an upsert and a delete (AgentTable, UserTable), bcrypt and toLowerCase (Passwords), the
-- signing of tokens (JwtService), `fetch` and String(x) of a value (Texts), the date seven days
-- earlier, Number.parseInt, the checks of class-validator (Validators), the router's matching of paths
-- (Router), encodeURIComponent, the clock and the random ids. A random request id is taken to be one
-- that no pending request has.
--
-- What is not modelled: logging, JSON.stringify, the decorators and the dependency injection of
-- NestJS, Redis and the start of the server, the rendering of the web client, its charts and its other
-- hooks and helpers, the caches of its query library but the list of hosts after a rename, and messages
-- whose uuid is not a text where the source would use it as a key. The texts of the web client are in
-- code points, which its slices do not split. The agent and the installer are programs of their own, in
-- Go.
pub mod Base
pub mod Dict
pub mod Json
pub mod Protocol
pub mod Text
pub mod Agents
pub mod Parser
pub mod Inventory
pub mod HostMetrics
pub mod Gateway
pub mod Http
pub mod Hosts
pub mod Containers
pub mod Users
pub mod Auth
pub mod Server
pub mod Web
pub mod Tests
