-- ===== src/Lib.antt =====
-- The research tool: a client posts the URL of a public GitHub repository, the API fetches the
-- repository's metadata, records a job and puts it on a queue; a worker takes the job, runs the AI
-- analysis or falls back to what is known without it, and stores a report; the client polls the job.
-- Around it stand the parts of a web service that it shares with others: sessions and permissions, the
-- answers to exceptions, logs, uploads and pages.
--
-- The files and the code that they model:
--   Schema                        app/research/schema/__init__.py, each model a record
--   Urlparse, UrlValidator        app/research/service/url_validator.py, on urllib's urlparse
--   Report                        app/research/service/report_renderer.py
--   Sanitizer, Format             app/research/service/context_sanitizer.py, on str.format
--   Database, Crud                app/research/model/research.py, app/research/crud/crud_research.py
--   Ports                         app/research/ports/__init__.py, and the contract of the cache
--   Redis                         app/research/adapters/redis_adapter.py, database/redis.py
--   Llm                           app/research/adapters/llm_adapter.py
--   Sqs                           app/research/adapters/sqs_adapter.py
--   Github                        app/research/adapters/github_adapter.py
--   Orchestration                 app/research/service/orchestration.py
--   Pipeline                      app/research/service/pipeline.py
--   Worker                        app/research/worker/sqs_worker.py
--   Router                        app/research/api/v1/research_router.py, the JSON endpoints
--   Errors, Conf                  common/exception/errors.py, core/conf.py
--   Base, Text, Json, Exec        Python's texts, JSON values, and statements that may raise
--   World                         the states of database, cache, queue and outside, side by side
--   Consistency                   what the parts keep together
--   Security.Tokens, .Users       common/security/jwt.py, the tokens of common/dataclasses.py
--   Security.Sessions, .SingleLogin, .Renewal, .Authentication
--                                 the life of a session, and what a user behind a request has passed
--   Security.Rbac, .Permission    common/security/rbac.py, common/security/permission.py
--   Security.Middleware           middleware/jwt_auth_middleware.py
--   Handlers, Messages            common/exception/exception_handler.py, common/response/,
--                                 common/schema.py
--   OperaLog                      middleware/opera_log_middleware.py
--   RequestIds, Logging           utils/request_id.py, middleware/request_id_middleware.py,
--                                 common/log.py
--   Connection                    database/db.py, the health endpoint of core/registrar.py
--   Pagination, Tree, Files       common/pagination.py, utils/build_tree.py, utils/file_ops.py
--   ServerInfo, Socket            utils/server_info.py, utils/redis_info.py,
--                                 common/socketio/server.py
--   Tests                         a small system in memory, and the properties at concrete inputs
--
-- A definition has the name of the function that it models, or of the variable, in the words of the
-- source. A statement is a function of the state that gives a result, or an exception, and the next
-- state; what was written before an exception stays written. The services of other programs are
-- parameters: a database that keeps committed rows, a Redis server, an SQS client, an HTTP client, an
-- OpenAI client, pydantic's validators, the text of a datetime, floating-point division, the host
-- checks of urllib, the token library, the user tables of a package that is not in the repository,
-- the casbin plugin, ciphers, and Python's text of a value. The clock and fresh uuids are arguments of
-- the functions that read them. Each round trip may raise where the library says that it may.
-- The recursion is on texts, lists and JSON values, so that no fuel is needed, but for two loops: the
-- copy of an upload is given one pass more than the file has characters, and the tree a depth, which is
-- enough when the ids have ranks that rise from parents to children. The endless loop of the worker is
-- cut off at a number of rounds, which the theorems leave open.
--
-- Not modelled: the sinks of the logs and latencies; the HTML dashboard; the wiring of the web
-- framework, and the handler that adds CORS headers; the hashing of passwords; the traversal that
-- builds a tree out of shared nodes; sizes in bytes and the reports of psutil; the clock of the times
-- to live, in whose place snapshots may expire at any step of a history; and the interleaving of
-- requests inside one another, statement by statement. A number in JSON that is not a natural one keeps
-- its spelling; the first error of a GraphQL answer has a text as its message; `int` reads the digits
-- of ASCII.
--
-- The settings of the menu mode, of the data permissions, of the operation log and of the uploads, and
-- three of those of the tokens, are read by the code and not declared in core/conf.py, where reading
-- one raises an AttributeError. They are arguments here, so that the theorems on these parts are about
-- the code with the settings declared. The colour markup that loguru reads in a formatted line is left
-- out.
pub mod Base
pub mod Text
pub mod Json
pub mod Errors
pub mod Exec
pub mod Schema
pub mod Urlparse
pub mod UrlValidator
pub mod Conf
pub mod Report
pub mod Format
pub mod Sanitizer
pub mod Database
pub mod Crud
pub mod Ports
pub mod World
pub mod Orchestration
pub mod Pipeline
pub mod Worker
pub mod Redis
pub mod Router
pub mod Consistency
pub mod Llm
pub mod Sqs
pub mod Github
pub mod Security
pub mod Messages
pub mod Handlers
pub mod Tree
pub mod Pagination
pub mod Files
pub mod ServerInfo
pub mod OperaLog
pub mod Socket
pub mod Connection
pub mod RequestIds
pub mod Logging
mod Tests
