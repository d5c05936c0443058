-- ===== src/Lib.antt =====
-- edtech-lms-api: the access rules of the central API of a learning management system, and the
-- publication of its curricula.
--
-- A request passes, in this order: authentication (src/services/auth.strategy.ts), which verifies a
-- token and asks the database whether its session is still good; the guards of its route
-- (src/guards); the organisation context that src/decorators/org.decorator.ts reads from the
-- token's claims; and a business class, which confines what it reads and writes to that context.
-- The parts modelled here are the ones that decide who may do what, and on whose rows; and how a
-- curriculum is published: its rows are picked and checked, a publication is stored, and the stored
-- publications of an organisation are merged into what its learners are served.
--
--   Prelude      names of the libraries, and lemmas on lists, tests and texts
--   Js           JSON values and the tests that the program makes of them
--   Errors       ApiError, its codes, and the result of a call that may throw
--   Enums        the built-in roles and the wildcard permission (src/models/enums)
--   Env          what is outside the repository: signing and verifying tokens, hashing passwords,
--                the clock, the configuration. Each is a parameter
--   Store        the tables lmsusers, roles, permissions, organisations and tokens as lists of rows,
--                the queries made of them, and the transaction (src/models/data-models)
--   Permissions  convertRolesPermsToArrayOfString (src/business/role-permission.business.ts)
--   Claims       src/services/organisation-claims.ts and src/decorators/org.decorator.ts
--   Scope        src/business/org-scope.ts: who a request acts for, and what it may find
--   Guards       src/guards: the access, permission, platform and log-import guards
--   Session      src/business/token.business.ts: which claims a token carries, the query that
--                decides whether it is good now, and (Session.Mint) making the tokens
--   Strategy     src/services/auth.strategy.ts
--   Auth         src/business/auth.business.ts: login, logout, refresh, switching organisation
--   Roles        src/business/session-revocation.ts: giving and taking roles, ending sessions
--   Staff        src/business/staff-organisation.ts: which organisation an account belongs to
--   User         src/business/user.business.ts: creating, changing and disabling accounts
--   RolePermission  src/business/role-permission.business.ts: giving roles to an account
--                (bindUserRoles) and, in RolePermission.Edit, createRole and updateRole with the
--                groups of permissions that a request may name (resolvePerms, checkParentRole)
--   Content      src/business/content-owner.ts (owners, Content.Rules) and
--                src/business/content-scope.ts (Content.Kinds): who owns a row of content, which
--                rows a caller may see, and what may be attached to what
--   Export       src/business/organisation-content-export.ts: the tables of an organisation's content
--                and how their rows hang together (Export.Keys), and the check made before they are
--                sent, confine and trimIdLists (Export.Confine)
--   Publication  src/business/curriculum-publication.ts, publication-withdraw.ts and
--                published-content.ts: the rows of one curriculum (Publication.Payload), hashes and
--                differences (Publication.Hashes), the stored publications (Publication.Shelf),
--                publish, retire and delete (Publication.Publish), runs of them (Publication.Reach),
--                and what learners are served (Publication.Sets, Publication.Merge)
--   Reorder      src/business/reorder-children.ts: the order of the children of one parent
--   Tests        a small organisation on which the theorems are tried
--
-- Stateful code passes the tables along: a call that writes is a function from the tables to a
-- result and the tables after it, and a managed transaction rolls back where its body throws. A
-- thrown error is a value. Fresh uuids are arguments. The database compares texts by its collation,
-- which is looser than the program's ===, so it is a parameter (Store.Collation) of which only
-- reflexivity, symmetry and transitivity are assumed; for runs of publishes also that it takes
-- texts of one lower case for the same, as the case-insensitive collation of the id columns does.
-- The roles linked to an account are kept as the list of their ids (lmsusers_roles). Content tables
-- are lists of rows with an id, a parent column and an owner column. Two more calls are parameters:
-- the database layer's setPermissions, of which it is assumed, where that is said, that it links
-- the set of rows it is given; and the lower case of a text.
--
-- scopeWhere and ownedIds call each other through the parents of a kind. The model counts down from
-- Content.Kinds.depth, 6: no kind has more than 5 parents above it, and one more changes nothing.
--
-- A publish is two calls: Publication.Publish.publish_read, made before the transaction, and
-- publish_commit, the transaction itself. A run (Publication.Reach.Run) commits calls one after
-- another; the reads of a publish may be of any shelf, so whatever committed between the reads and the
-- commit is covered. The rows that the export's readers return are arguments, and so are JSON.parse,
-- the JSON text of a row, sha256, the hash of a payload's hashes, and localeCompare. The summary of a
-- publication leaves out its lists of shared, moved and affected rows. Of the clock only its value at
-- the commit is used.
--
-- Not modelled: mails and logs, the columns updated_at and created_at, row locks, the interleaving
-- of concurrent requests other than publishes, the per-request cache of ownedIds, and the rest of
-- the API (the readers of the export, schools, learners, imports, sync, reports, media). The
-- application's own tests, migrations and scripts are not modelled either.
pub mod Prelude
pub mod Js
pub mod Errors
pub mod Store
pub mod Claims
pub mod Scope
pub mod Enums
pub mod Export
pub mod Publication
pub mod Reorder
pub mod Guards
pub mod Session
pub mod Env
pub mod Permissions
pub mod Strategy
pub mod Auth
pub mod Roles
pub mod Staff
pub mod User
pub mod RolePermission
pub mod Content
pub mod Tests
