-- ===== src/Lib.antt =====
-- The research assistant's backend: its agent, the errors it answers with, its sessions, its
-- retrieval and ingestion, the storage of objects, the start of the service, its endpoints and its
-- migrations.
--
-- The program (backend/app) is a web service. A signed-in user uploads documents, which the retrieval
-- service splits, embeds and stores, and asks questions, which the agent answers: the planner asks a
-- language model for a plan of tool calls, the executor runs the plan's steps in waves with retries
-- and time limits, and the orchestrator composes an answer with its citations. Errors are exceptions
-- that handlers turn into problem+json answers.
--
-- Files and the code they model:
--   Base            shared helpers: Boolean tests, lists, association lists, the integers and strings
--                   of Python as the code uses them
--   Core.Config     backend/app/core/config.py
--   Core.Application  `create_app` of backend/app/main.py
--   Core.Container  backend/app/core/container.py, as what is built from the settings; its child Wired
--                   has the theorem
--   Core.Health     backend/app/core/health.py and backend/app/api/routers/health.py
--   Core.Middleware backend/app/core/context.py and middleware.py, with the chain of main.py
--   Core.Errors     backend/app/core/exceptions.py; `Result` is the outcome of code that may raise
--   Core.Float      floats as opaque bits, with the operations that the code uses as an interface
--   Agent.Json      the JSON values of the planner; parsing them is a parameter, which may raise
--   Agent.Tools     backend/app/modules/agent/tools/base.py, placeholders.py and rag_tool.py's payload
--   Agent.Registry  backend/app/modules/agent/tools/registry.py
--   Agent.Trace     backend/app/modules/agent/decision_trace.py and memory.py; `Run` is the state that
--                   a run changes: the world of its tools, its memory and its trace
--   Agent.Plan      the record of steps that planner.py and executor.py share
--   Agent.Executor  backend/app/modules/agent/executor.py: one step here, the waves in its child Waves;
--                   Events and Once are about what a run writes to its trace
--   Agent.Planner   backend/app/modules/agent/planner.py: the children have the JSON extraction
--                   (Extract) and the whole of `Planner.plan` (Service); the lemmas are the others
--   Agent.Service   backend/app/modules/agent/orchestrator.py
--   Auth            backend/app/modules/auth/models.py and repositories.py: the tables and queries
--   Auth.Tokens     backend/app/modules/auth/tokens.py and security.py over the libraries' functions
--   Auth.Service    backend/app/modules/auth/services.py, each operation of `AuthService` as a unit of
--                   work on the two tables; Auth.History has the calls and what they reach, Auth.Writes
--                   the writes that they are made of, and the other children the lemmas
--   Llm             backend/app/modules/llm: the factory, the Gemini provider and the fake one
--   Rag.Chunks      backend/app/modules/rag/chunking.py and the token estimate of splitters.py
--   Rag.Loaders     backend/app/modules/rag/loaders.py
--   Rag.Embeddings  backend/app/modules/rag/embeddings.py
--   Rag.Citations   backend/app/modules/rag/citations.py
--   Rag.Lexical     the BM25 scores of backend/app/modules/rag/retrieval.py
--   Rag.Tables      backend/app/modules/rag/models.py and queries of repositories.py
--   Rag.Retrieval   `RetrievalService.retrieve` of backend/app/modules/rag/retrieval.py
--   Rag.Stores      the two stores of backend/app/modules/rag/vectorstore.py; the children Search and
--                   Files have the searches and what is saved
--   Rag.Documents   a user's documents, of backend/app/modules/rag/services.py and repositories.py, over
--                   the contents of either vector store, with what its `add` and `save` raise as a
--                   record; the children are about deletion, failure, and the two stores
--   Rag.Pipeline    `_pipeline` of services.py
--   Rag.Ingestion   `ingest` of services.py around it; the children are the lemmas: Ready of a call that
--                   succeeds, Outcome of one that raises
--   Rag.Wired       that ingestion over the local storage, the loaders and the embedders
--   Rag.Forgotten   retrieval after a deletion
--   Rag.Listing     the pages of a user's documents, of services.py and repositories.py
--   Rag.Passages    the passages that rag_tool.py shows of a retrieval, and the query rewriters
--   Rag.Tool        `RagTool.execute` of rag_tool.py: the agent's tool over retrieval
--   Shared.Paths    paths as pathlib resolves them
--   Shared.Storage  backend/app/shared/storage.py: the local storage over a disk, and S3 over its
--                   client; the child Objects compares the local one with a map
--   Shared.Repository  backend/app/shared/repository.py
--   Migrations      backend/alembic: the four migrations as data, in the children, and their chain
--   Api             the routers, schemas and dependencies of the modules auth, agent and rag: the
--                   current user here, the endpoints in Accounts, Agents and Library,
--                   and the schemas of the module rag in Bodies
--   Examples        runs of the definitions at concrete inputs
--
-- What is a parameter: the tools' own code, the language model, JSON parsing, time and the random
-- ids are outside of the modelled code. A tool is a function of its arguments and of a world that
-- it may change, and a timeout is one of its outcomes. The hashes of passwords and refresh tokens
-- and the signing of access tokens are a record of functions (Auth.Tokens.Crypto); random ids and
-- the readings of the clock are arguments of each call. A theorem that relies on a law of the
-- libraries has it as a hypothesis (IsVerified, IsSigned). The text splitter, the embedder, the
-- search for vectors, the reranker and the tokens of a text are fields of what they serve; the
-- arithmetic of floats is the record FloatOps, of which nothing is assumed but what a theorem
-- names. Parameters are also the ports of ingestion (uploads, loaders, the database's answers, and what
-- writing the files of a FAISS index raises), the
-- parsers of PDF and DOCX, the model of sentence-transformers, the client of the language model, the client of S3,
-- the constructors of libraries at the start, and what an operation of a migration does to a
-- schema. The local storage stands on a disk of files and directories without symbolic links.
--
-- How the parts interact: the container builds the vector store and the embedder once and gives them
-- to ingestion and retrieval; the agent calls retrieval as a tool (Rag.Tool), for the user whom the
-- endpoint found from the token (Api, Auth.Service); the ids of vectors tie the store to the tables
-- (Rag.Pipeline, Rag.Retrieval); whatever raises is answered by Core.Errors.
--
-- Bounds: the loop over waves in `Executor.execute` has no fuel. It recurs on a bound for the
-- number of pending steps, which starts at the length of the plan; each wave that finds a ready
-- step makes the pending list shorter, and the loop stops with the cycle error if none is ready.
-- The retries of a step recur on the number of attempts left. Numbers are natural or whole numbers
-- without bound, as in Python.
--
-- Not modelled: the web framework, the database engine, logging, the upload module (it is not in the
-- repository) and the frontend. Threads are not modelled either: a call is one step on its state, but
-- for registration, where the look-up and the insertion see different states. The column updated_at
-- of documents and the created_at of users are not kept, and a FAISS index holds its vectors without
-- the rounding to 32 bits. The lifetimes of tokens in the settings are natural numbers: a negative
-- one is left out.
pub mod Base
pub mod Core
pub mod Agent
pub mod Auth
pub mod Llm
pub mod Rag
pub mod Migrations
pub mod Shared
pub mod Api
pub mod Examples
