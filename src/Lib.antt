-- ===== src/Lib.antt =====
-- The web frontend of KafkaUI: what its stateful parts do.
--
-- The frontend is a React application; its server is reached by HTTP requests and WebSockets. The
-- development models the parts that decide something: each component's state is a record, each
-- handler a function on it, and the user's actions, the settling of promises and the reports of the
-- browser are events, so that every interleaving is a list of events. Answers of the server are
-- arbitrary. The calls that a page's state lists are the requests of its mutations; the GETs by which
-- its queries fetch what it shows (at mount, on a retry, after an invalidation) are in no list, and
-- their answers are events. Rendering is modelled only where it decides which controls can be used.
--
-- Texts are lists of UTF-16 code units, as in JavaScript. Numbers are naturals, or the integers of
-- Base/Numbers.antt where the source's may be negative; NaN is `none`.
--
--   Base         shared names, tests, lists, texts, parseInt
--   Regex        regular expressions by derivatives, with their languages
--   Api          frontend/src/lib/api.ts: its types, the calls (Routes) and `request` (Request); errors,
--                encodeURIComponent
--   Wizard       frontend/src/components/wizard: ConnectionStep.tsx (ConnectionStep), the reducer of
--                ClusterWizard.tsx (State), the other steps (Steps), what they show (Review), the
--                component itself (Flow)
--   LiveTail     frontend/src/hooks/useWebSocket.ts
--   Auth         AuthProvider.tsx, RequireAuth of App.tsx, LoginPage.tsx, usePermissions.ts
--   Browser      pages/TopicMessagesPage.tsx: the filter's check (Filter), Fetch (Browse), the form for
--                a new message (Produce), the page with the live tail (Page)
--   Settings     pages/SettingsClustersPage.tsx
--   Metrics      pages/MetricsPage.tsx: the typed range (TimeInput), the picker (Picker), the formats of
--                values and times (Format), the groups with their search (Groups)
--   Users        pages/AdminUsersPage.tsx, with JavaScript's Set (Sets)
--   ListPage     what the pages with a list share; each of the next five gives its own part
--   Topics       pages/TopicsPage.tsx, and TopicDetailPage.tsx (Detail)
--   Schemas      pages/SchemaRegistryPage.tsx, and SchemaDetailPage.tsx (Detail)
--   Connect      pages/KafkaConnectPage.tsx, and ConnectorDetailPage.tsx (Detail)
--   Acl          pages/AclPage.tsx
--   Scram        pages/UsersPage.tsx
--   ConsumerGroups
--                pages/ConsumerGroupDetailPage.tsx
--   Ksql         pages/KsqlPage.tsx
--   Json         how three pages lay JSON out
--   Nav          AppSidebar.tsx, and TopicTabs.tsx (Tabs)
--   Search       frontend/src/hooks/useSearchFilter.ts
--   Permissions  the actions that the pages ask for, and what their mutations send then (Pages)
--   Server       the routes of internal/api/router.go, and what each asks for
--   Theme        ThemeProvider.tsx and ThemeToggle.tsx
--
-- Every function is total by structural recursion; no fuel is used. The bound of the live tail is
-- the source's 1000 messages.
--
-- Not modelled: the components of components/ui (copies of shadcn/ui), charts, the page's frame, and
-- the pages that only show what the server sends. Of the server, only the table of routes is
-- modelled, and of its router chi what the documentation says: a literal takes itself, and a
-- placeholder takes one part of a path, which of them being a parameter. Other parameters are
-- `toUpperCase` and `toLowerCase`, whose tables are Unicode's, the parsing of an address, the
-- conversions of dates, the library chrono-node, the numbers of the metrics with their operations,
-- `String` of a number, `JSON.parse` and `JSON.stringify`, and what the server answers to a filter.
pub mod Acl
pub mod Api
pub mod Auth
pub mod Base
pub mod Browser
pub mod Connect
pub mod ConsumerGroups
pub mod Json
pub mod Ksql
pub mod ListPage
pub mod LiveTail
pub mod Metrics
pub mod Nav
pub mod Permissions
pub mod Regex
pub mod Schemas
pub mod Scram
pub mod Search
pub mod Server
pub mod Settings
pub mod Theme
pub mod Topics
pub mod Users
pub mod Wizard
