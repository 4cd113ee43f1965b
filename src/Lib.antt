-- ===== src/Lib.antt =====
-- A verification library for the web front end of restic-ui (web/src), a React application that
-- manages restic backups through the JSON API of a Go server, and for the parts of that server
-- (internal/) on which the front end relies.
--
-- The program. `App` asks the server for the session and shows the login, the setup or the pages.
-- While the session is authenticated, `useEventStream` keeps one event stream open and folds its
-- events into the cache of react-query, from which all pages read, and into toasts for operations
-- that end. The pages send requests: plans and repositories are created and edited in forms,
-- operations are listed in pages, a snapshot's files are browsed and restored.
--
-- The modules and the code that they are about:
--   Types       web/src/lib/types.ts: the records of the API, those of snapshots and statistics in
--               Types.Repositories, those of the dashboard in Types.Dashboard; Types.Bytes is
--               formatBytes.
--   Api         web/src/hooks/useRepos.ts and usePlans.ts: the requests and what they invalidate.
--   Toasts      web/src/lib/toastStore.ts: pushToast, dismissToast, subscribe, and the timeouts.
--   Operations  web/src/hooks/useOperations.ts. Notify: maybeToast. Cache and Stream: the handler
--               onmessage with its three cases. Socket: connect, onopen, onclose and the cleanup.
--               History: useFilteredOperations with the listing that answers it (handleOpsList in
--               internal/api/ops_handlers.go, ListOperations in internal/ops/runner.go). Table:
--               the filters, the rows and the durations of web/src/pages/OperationsPage.tsx. Console:
--               its OpDetail, with web/src/components/ops/ProgressBar.tsx and StatusBadge.tsx. Logs:
--               a log that is fetched while it grows (opLogger.log and GetLogs in runner.go).
--   Cron        web/src/lib/cronHumanize.ts: SCHEDULE_PRESETS and humanizeCron.
--   Plans       web/src/components/plans/PlanForm.tsx (Form) and web/src/pages/PlansPage.tsx (Page
--               and Card). Form.Panels has the dry run and the preview of a retention; Form.Reopen also
--               has the JSON tags of internal/plan/plan.go.
--   Session     web/src/lib/api.ts (Requests), web/src/hooks/useAuth.ts and web/src/App.tsx
--               (Session), web/src/pages/AuthPage.tsx (Login). Here and elsewhere, a module View or
--               Header has what a page or a component shows.
--   Repos       web/src/components/repos: RepoForm.tsx (Form; Form.Inputs has the inputs that it
--               shows), RepoCard.tsx (Card, and Location for locationSummary) and
--               SnapshotBrowser.tsx (Browser). Card.Run has the answers to the card's
--               requests, Card.Requests what they send.
--   Folders     web/src/components/plans/DirBrowser.tsx with Browse of
--               internal/fsbrowse/fsbrowse.go.
--   Dashboard   web/src/pages/DashboardPage.tsx, web/src/components/Sparkline.tsx, and the growth
--               that handleDashboard in internal/api/settings_handlers.go sends.
--   Shell       web/src/components/AppShell.tsx and Toasts.tsx, the routes of web/src/App.tsx, and
--               web/src/pages/RepositoriesPage.tsx.
--   Settings    web/src/pages/SettingsPage.tsx.
--   Server      the Go server behind it. Runner: the Runner of internal/ops/runner.go and commands.go,
--               whose goroutines take their steps in any order; Outcome how an operation ends, Resume
--               what becomes of one that was interrupted. Hub:
--               internal/ops/events.go and the loop of handleStream in internal/api/ops_handlers.go.
--               Guard: internal/auth/middleware.go, the sessions of internal/auth/auth.go, and the
--               answers of internal/api/auth_handlers.go about a session; Account creates the first
--               account. Arguments: Validate and the
--               flags of internal/plan/plan.go with the command lines of a backup and a retention.
--               Missed: what a browser knows that was not connected when an operation ended. Wire: the
--               JSON of some request bodies, and the Go structs that decode it.
--   DarkMode    web/src/hooks/useDarkMode.ts.
--   Base        Boolean tests, lists, texts and association lists that the others share.
--
-- Conventions. A component's useState variables are a record, each event handler is a clause of one
-- function on that record, and a mutation that is awaited takes its answer as an argument. A text is
-- a list of UTF-16 code units, an id, a count or a number of milliseconds a natural number; the
-- inputs of type number whose minimum is 0 give natural numbers too, and a port is an integer. What
-- the browser and the libraries do is a parameter or a step: JSON.parse, encodeURIComponent, Number, the instants of
-- dates, timeouts that fire, a socket that closes. Of react-query the model has the data under each
-- key and which keys were invalidated, and that data which equal those under the key keep the object
-- that is there (structural sharing); of React, that an element which stays mounted keeps its state.
-- The requests of a repository's card are a list in its state, and an answer names the one that it
-- is for, so that the server may answer in any order. Go's file paths, directories and sorting are
-- parameters, with what their documentation says as laws (Folders.Reachable.IsLawful). The coordinates of a
-- sparkline are exact fractions, and the progress of an operation is counted in millionths.
--
-- Bounds and fuel. A numeral is written with fuel n + 1, since a number has no more digits than its
-- size. "Load more" runs on fuel, and one round more than the table has rows is enough, as each
-- round but the last gathers a row. All else is structural recursion.
--
-- Of the server, a goroutine goes from phase to phase, and between two of its steps any other one may
-- go on; a write to the database succeeds. The statement about restic's arguments is for any reader of
-- command lines that keeps to restic's documentation (Server.Arguments.Line.IsReader), and those about
-- sessions for any hash of their tokens.
--
-- Not modelled: the rest of the Go server, which is configuration, encryption, the settings of the
-- repositories, the scheduler, notifications and running restic itself; the layout, class
-- names and icons of the views, which have no state; formatWhen, which is the browser's own
-- formatting of dates; and what the laws of IEEE doubles do to the coordinates of a sparkline.
pub mod Base
pub mod Types
pub mod Toasts
pub mod Operations
pub mod Cron
pub mod Plans
pub mod Server
pub mod Session
pub mod Repos
pub mod DarkMode
pub mod Settings
pub mod Dashboard
pub mod Folders
pub mod Api
pub mod Shell
