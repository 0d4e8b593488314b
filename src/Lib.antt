-- ===== src/Lib.antt =====
-- The projects API: a library over its Python sources, with what makes them correct.
--
-- The program is a service on AWS Lambda with two entry points over one DynamoDB table, and two
-- scripts for developers. The API (src/projects_api) creates, reads, lists and deletes a caller's
-- projects; each project is two items of the table, its record and the reservation of its name,
-- written and removed in one transaction. The provisioner (src/projects_provisioner) gets the
-- table's stream: for the record of a new project it moves the status from CREATED to
-- PROVISIONING, runs the provisioner of the project's type, and moves the status on to READY or
-- FAILED, each time by an update that is conditional on the status.
--
-- The files, and the code that they model:
-- - Regex: the regular expressions of domain/validation.py and domain/models.py as data, and
--   `fullmatch` by derivatives; Regex/Matching has their language.
-- - Domain/Validation: src/projects_api/domain/validation.py (normalise_name, validate_name,
--   name_key), with proofs in Normal, Pattern and Names.
-- - Domain/Models: src/projects_api/domain/models.py (ProjectType, ProjectStatus, Project,
--   Project.new, is_valid_project_id), with proofs in Ids and, on the order of times, Times.
--   Domain/Exceptions: domain/exceptions.py, and the exceptions of libraries that the code meets;
--   a call that can raise gives a `Result`.
-- - Dynamo: the requests that the code sends to DynamoDB, and a record for the client. It is a
--   parameter. Dynamo/Behaviour names what the code relies on.
-- - World: what a call changes, the database, the metrics (observability.metrics) and the log
--   (observability.logger). `Exec` passes it on; what was written before an exception stays.
-- - Repository: src/projects_api/repositories/projects.py, one function for each method; Records
--   has the keys and items. Consistency says what a consistent table is; Create, Refusals,
--   Answers, Reading, Stored, Transacted (the second half of a delete), Delete, Owners, Reuse,
--   Listing and Order are about the methods; Index says how the index GSI1 follows the table.
-- - Provisioner: ProjectStatusStore and record_handler of src/projects_provisioner/handler.py;
--   Provisioners is provisioners.py. Moves is the machine of the statuses as a relation on
--   tables, Transition, Runs and Outcome are about the store and the handler.
-- - Api: src/projects_api/api. Context is context.py (request_id, _resolve, _owner_id), with its
--   RequestContextMiddleware in Context/Middleware; Deps is deps.py (current_user) with
--   config.py's is_local, Errors is errors.py (problem and the handlers of
--   register_error_handlers), Routes is routes/projects.py (create_project, list_projects,
--   get_project, delete_project). Pagination is pagination.py (encode_cursor, decode_cursor),
--   with proofs in Printed, Ascii, Tokens, Cursors and RoundTrip. Openapi is openapi.py: the
--   operations (_problem_responses and the loop of build_openapi), Document (_operation_ids,
--   _add_problem_schema, _add_create_project_examples, _find_operation), References
--   (_drop_unreferenced and build_openapi), with proofs in Responses, Operations, Walks, Whole
--   and Kept. Application is main.py (create_app and its custom_openapi).
-- - Base64, Json: what Python's base64 and json do for pagination.py. Json/Print is json.dumps
--   with the separators and the sorted keys of encode_cursor; Strings, Numbers and Scan are
--   json.loads. Json/Dict has what openapi.py does with a `dict`.
-- - Scripts: scripts/. SeedIssues is seed_issues.py (run, ensure_labels, ensure_milestones,
--   existing_issues and main); Commands has the commands that it sends, Known what it reads of
--   their answers, Tables its LABELS and MILESTONES, Tickets its parse, with proofs in
--   Tickets/Lines, Tickets/Labels and TicketFile. A computation changes a `Session`: the
--   repository, the printed lines and the written files. Github says what the script relies on;
--   DryRun, Ends, Ensured, Issued, Seeded, Idle and Again have the proofs. Integers is Python's
--   `int` and `str` of a number. LocalTable is create_local_table.py.
-- - System: the steps of all requests on one table. A create, of a project with a time in whole
--   seconds as `Project.new` makes it, is one step; a delete is two, since others may write
--   between its read and its transaction; a status transition is one. System/Listed is about the
--   items of the index.
-- - Common: texts, lists and tests over the native numbers. Tests: concrete runs, on a table in
--   memory, on one that loses answers and reasons (Tests/Lossy), and on a GitHub repository that
--   takes one ticket.
--
-- Texts are lists of code points. A function whose result depends on the time or on a fresh UUID
-- takes that value as an argument. Times are UTC. Two loops run on fuel: the one that prints a
-- natural number in `respond` and in seed_issues.py, where the number plus one is more than the
-- number of its digits, and the scanner of JSON, whose fuel is twice the length of its input and
-- one, which Json/Scan/Fuel proves to be enough. Python's limit on the depth of nested JSON,
-- which neither a token of at most 1024 characters nor a list of the GitHub CLI reaches, is not
-- modelled.
--
-- The parameters stand for code that is not in the repository:
-- - `Unicode`: lower case of texts that are not ASCII, and `str.isprintable` beyond Latin-1.
--   Nothing is assumed of it.
-- - `Runtime`: it adds pydantic's parsing of a datetime, and the text of its errors. A project
--   read back has its times where the parser undoes `isoformat` on them (`ReadsTimes`, and
--   `ReadsWhole` for all in whole seconds).
-- - `Dynamo`: the client, bound to the one table that all calls name. `Documented`: reads are
--   consistent; a transaction is all of its writes, where every condition holds, or nothing, and
--   so is an update. One that fails may have been applied all the same, since an error of the
--   server does not tell, but not where the error says that a condition failed. The reasons of a
--   cancelled transaction tell which condition failed; the service may leave them out
--   (docs/adr/0003), and then the message tells that some condition failed. A query changes
--   nothing. `IsUp`: an update is answered by its condition; `IsServing`: so is a transaction.
--   Only theorems that need the service to answer assume one of them. A request has an answer or
--   a ClientError; a BotoCoreError is not modelled.
-- - `Index`: the global secondary index, which follows the table with a delay: an item in it
--   stood in the table. A query answers with at most `limit` items, all in its partition; one
--   that names GSI1 and asks for it gets them by their sort key in descending order.
-- - `Gh`: the GitHub CLI, whose commands answer or raise. `Github`: its lists have the names that
--   the repository has, up to their limits; a command that lists changes nothing; one that
--   creates adds a name; none removes any.
-- - `Python`: `str` of a JSON value that is neither a text nor a natural number, and `int` of a
--   text that is not ASCII.
-- - `Decoder`: how json.loads decodes bytes that are not ASCII, and `unknown`, the JSON of an
--   attribute that is not a text. Nothing is assumed of either.
-- - `Starlette`: the headers of a response, whose `setdefault` adds a missing header behind the
--   others and leaves one that is there.
-- - Of FastAPI, the document that get_openapi makes, the routes and pydantic's schema of
--   `Problem` are arguments of `build_openapi`. The names of the routes are ASCII.
-- - The provisioner of each type is a function that returns or raises.
--
-- Not modelled: pydantic's parsing of a request, the wiring of FastAPI and Mangum in main.py and
-- api/routes/health.py, the batch processor that calls record_handler, argparse's reading of a
-- command line and infra/. The text of the ValueError of an unknown project type is abridged,
-- since it is a library's; so are those of a TypeError, of `int` and of json.loads in
-- seed_issues.py.
pub mod Common
pub mod Dynamo
pub mod Base64
pub mod Json
pub mod Regex
pub mod Domain
pub mod World
pub mod Repository
pub mod Provisioner
pub mod Api
pub mod Scripts
pub mod System
mod Tests
