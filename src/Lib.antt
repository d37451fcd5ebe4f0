-- ===== src/Lib.antt =====
-- dynamis-code-apps-template: a Go monolith with workspaces, items, background jobs and sharing.
--
-- The files and what they model (paths from the repository's root):
--
-- Prelude   shared names, lists, Go strings as bytes, association lists, tables with unique keys.
-- Clock     the two text layouts of times: `timestamp` of internal/identity/service.go and
--           `stamp` of internal/jobs/queue.go, and how the database compares the texts.
-- Schema    the rows of internal/platform/database/migrations that the components use.
-- Exec      statements, transactions, the random source. A statement may fail wherever the list
--           `faults` says so; theorems hold for every such list, unless they name a healthy world.
-- RateLimit internal/httpapi/rate_limit.go: `allow` and what it calls.
-- Identity  internal/identity: roles and permissions (policy.go), authorize, authorizePrincipal and
--           audit (service.go). Identity/Members: AddMember, ChangeMemberRole, TransferOwnership and
--           RemoveMember; Identity/Workspaces: CreateWorkspace and the locale of a workspace
--           (locale.go); Identity/Bootstrap: BootstrapFirstOwner; Identity/Scim and Identity/Mfa: what
--           these call of scim.go and mfa.go; Identity/Sessions: session.go;
--           Identity/Tokens: token.go; Identity/Invitations: invitation.go (Manage: resending, revoking
--           and listing; Use: looking up and accepting; Owners: what accepting does to memberships).
--           The invariant of the memberships is Identity/Members/Owners, and Identity/Members/Steps
--           runs the operations in any order.
-- Items     internal/items: Create, Get, Update and Delete (service.go), recordChange (events.go);
--           Items/Listing: List and its cursors; Items/Import: ImportInTx; Items/Feed: Changes.
--           The publisher of events is a parameter. Versions stay below 2 ^ 63.
-- Sharing   internal/sharing/service.go: Create, List, Revoke and Resolve. Sharing/Board is the
--           abstract view: the share that stands behind the hash of a token.
-- Jobs      internal/jobs/queue.go: Register, RegisterExhausted, EnqueueTx, claim, finish, Process;
--           the DELETE of settled jobs in internal/platform/maintenance/maintenance.go.
--
-- A method that changes state returns the new state. The tables are lists of rows; an SQL
-- statement is a function of the rows that does what the text of the statement says, under SQLite's
-- binary collation of texts. The foreign keys of a new membership are enforced and the deletion of an
-- item deletes its public links; other foreign keys are not modelled. The clock stands still within one
-- method, and moves where a handler moves it.
--
-- A client that follows the cursors of `List` (Items/Listing/Pages) runs on fuel: one page more than
-- there are items is enough. encoding/json, encoding/base64 and SQL's LIKE are parameters there.
--
-- `Process` recurs on the rounds that its limit leaves, so it takes no fuel. A test such as
-- `json.Valid` that the Go library makes is an argument.
--
-- Not modelled: goroutines, tickers and logging; the HTTP, web and MCP layers, which decode requests
-- around these services; the JSON texts of results and of audit metadata, kept as the values that they
-- encode; hashes, mail addresses and lower case of the Go libraries, which are arguments;
-- single sign-on, the users and groups of the SCIM API, webhooks, files, portability and the rest of
-- the platform, with the other deletions of its maintenance.
pub mod Prelude
pub mod Clock
pub mod Schema
pub mod Exec
pub mod RateLimit
pub mod Identity
pub mod Items
pub mod Jobs
pub mod Sharing
