-- ===== src/Lib.antt =====
-- A model of the TalentFlow API gateway (api-gateway/src) and what is shown of it.
--
-- The gateway is a Nest application. Its services read and write a PostgreSQL database through
-- Prisma, put uploaded CVs into a bucket, and tell a parser of CVs about them by a message.
-- The files of this library, and the code that they model:
--
--   Model           api-gateway/prisma/schema.prisma: the rows, the enumerations, the database
--   Prisma          the client of Prisma, a parameter: what is called of it, the laws it is taken to
--                   meet, and an instance in memory that meets them
--   Applications    api-gateway/src/applications: create, createWithCv, findAll, findOne, update,
--                   remove and their private helpers
--   Storage         api-gateway/src/storage/storage.service.ts
--   Queue           api-gateway/src/queue/queue.service.ts: publishing, and the connection as a state
--                   machine (Connection, Steps)
--   Jobs, Users, Interviews, Candidates
--                   api-gateway/src/jobs, users, interviews and candidates: the services, whole
--   Analytics       api-gateway/src/analytics/analytics.service.ts, with the `where` of each query; what
--                   the client of Prisma answers to a `where` and the methods of Date are parameters
--   Gateway         the guards in their order (auth/guards, app.module.ts), before any controller; each
--                   component has its controller in its module Controller (*.controller.ts)
--   Auth            api-gateway/src/auth: auth.service.ts, auth.controller.ts with its cookies,
--                   strategies/*.ts, guards/roles.guard.ts, over
--                   the client of Redis (redis/redis.service.ts), a parameter with an instance in
--                   memory
--   Json, Sanitize, Http
--                   api-gateway/src/common: sanitize of utils/sanitize.util.ts on trees of JSON, the
--                   filters/http-exception.filter.ts and interceptors/transform.interceptor.ts
--   FileKey, FileValidation, Pagination, SecurityAudit
--                   api-gateway/src/common: utils/file-key.util.ts, pipes/file-validation.pipe.ts,
--                   dto/pagination.dto.ts and the events of services/security-audit.service.ts
--   Async, Dto, Texts, Prelude
--                   what the components share: methods that may reject, optional properties, texts,
--                   tables and lists
--
-- An `async` method is a function from the state to a result and a new state (Async): it resolves
-- with `ok` or rejects with `err` and an exception of Nest or another error, and what was written
-- before it rejected stays written. The state of a service is the database, five tables of rows under
-- their primary keys; createWithCv works on the database, the bucket and the
-- broker, and authentication on the database, the keys of Redis and the audit log. A method of the
-- source keeps its name in snake case. The role of a user is a text, as the guards hand it over.
--
-- What is not part of the repository is a parameter: the client of Prisma, the S3 client, the channel
-- of the broker, the client of Redis, bcrypt, the signing of tokens, random identifiers, the clock
-- (`now`), `toLowerCase` and the parsing of dates. The laws of
-- Prisma.Laws are those that the documentation and the schema state: a statement takes effect or
-- rejects and changes nothing, emails are unique, a pair of job and candidate has one application,
-- the deletion of a candidate takes the applications along. Each theorem that needs laws names them.
--
-- The connection to the broker runs by steps: what the service does between two awaits is one
-- function, the awaits that are outstanding are part of its state, and a step ends one of them, calls
-- a listener, fires a timer or destroys the module, in any order. A request is a route of a
-- controller with the payload of its access token, once passport has verified that; `serve` takes it
-- through the guards to the handler.
--
-- There is no recursion but on lists, texts and trees, so no fuel is needed. Numbers are natural numbers;
-- times are milliseconds.
--
-- Left out: the columns createdAt and updatedAt; the rows that `include` adds to an answer and the
-- narrowing that `select` makes, but for the password; reads that the database refuses; log lines;
-- calls of Redis that reject; an update of a job that sends null for its requirements;
-- the validation of request bodies by decorators, of which the types keep what they guarantee; the
-- documentation of routes; the limit on the rate of requests; keys of Redis that expire, and the
-- verification of signatures, which is done before the strategies run; sanitizeUrl, sanitizeError and
-- sanitizeString, which are replacements by regular expressions; health, metrics and logging; and the
-- parser of CVs, a program of its own (cv-parser).
pub mod Analytics
pub mod Applications
pub mod Async
pub mod Auth
pub mod Candidates
pub mod Dto
pub mod FileKey
pub mod FileValidation
pub mod Gateway
pub mod Http
pub mod Interviews
pub mod Jobs
pub mod Json
pub mod Model
pub mod Pagination
pub mod Prelude
pub mod Prisma
pub mod Queue
pub mod Sanitize
pub mod SecurityAudit
pub mod Storage
pub mod Texts
pub mod Users
