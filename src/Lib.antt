-- ===== src/Lib.antt =====
-- SubLLM picks a provider for each call of a language model, fails over to the next one, keeps the
-- health of the providers, and offers its policy through a bus of queries and commands. The library
-- models these parts of src/subllm:
--
--   Types                 the records of types.py
--   PolicyConfig          policy_config.py: its records, the rows of a file (Rows, Custom,
--                         Application), what the environment replaces (Environment), and `load_policy_config` from the
--                         parsed file on (Load). A validated custom provider is registered in the
--                         catalogs of Policy.
--   Policy                policy.py: the shipped tables (Providers, Models, Applications, Candidates,
--                         Routes), the defaults of policy_config.py (Defaults), and the catalogs that
--                         custom providers extend (Overlay). `find` is `__getitem__` and `get`.
--   Routing               resolver.py, provider_order.py and `credential_is_valid`: `select_routes` is
--                         `_configured_routes`, `choose` and `build` are the two halves of
--                         `_configured`, `key_of` is the body of the loop of `available_routes`. It
--                         reads the catalogs of Policy and the loaded policy, as the record Setup; the
--                         routes that it resolves are those that Client tries.
--   Health                health.py: one provider's health (Entry), the file with it (File), the
--                         store and its in-memory fallback (Store), the order of routes (Routing).
--                         `fail` and `succeed` are the `update` functions of `record_failure` and
--                         `record_success`; `with_persisted_state` is `_with_persisted_state`.
--                         Where all providers are cooling, the documents say that a call fails at
--                         once; the code, and with it `order_with_last_resort`, tries those that were
--                         not refused.
--   Client                client_routes.py, client_types.py, client_vision.py: `complete`, whose loop
--                         is `failover` and one turn of it `turn`; `settle` is its `except` and what
--                         follows. It asks Health for the order of the routes and tells it what came
--                         of each call.
--   Adaptive              adaptive.py: the classes of models (Config, Classes), the database of
--                         observations (Observed), `rank` (Rank), one turn of the loop (Turn), the loop
--                         and what comes before it (Execute). A turn orders its candidates by Health
--                         and tells it what came of the call, as Client does.
--   Poa                   poa/: the references (Refs), the closed tables (Tables) and the lookups in
--                         them (Registry), the journal (Store, with the bounded one of
--                         gateway_bus.py), the plan (Plan), the commands and the bus (Commands,
--                         Check, Bus, Gateway), the queries (Queries) and the process editor
--                         (Editor).
--   Prelude, Dict, Json, Regex   what the parts share: code that may raise, Python's `dict` as an
--                         association list in insertion order, JSON documents, and the closed
--                         patterns, matched by derivatives.
--
-- State is passed on: a call takes the stores and returns them with its result or its exception. An
-- exception is a value. Times are natural numbers of microseconds, so a sum of them does not round.
-- Every loop is structural, on the routes, the edits, the rows or the text, so none needs fuel, but the
-- loop of Adaptive, which runs on the attempts that its bound has left: each turn that goes on adds one,
-- so they are enough. The printing of an event's number has as many digits to spend as the number and
-- six more, and a number has fewer digits than that.
--
-- From outside come, as parameters: the clocks, the run ids, the digest of a document, Python's
-- equality of documents and its `str`, what the operating system does to the health file (`Io`),
-- what a provider answers (`Trial`, and with what else a turn of Adaptive meets `Round`), and the
-- modules that the bus and the client only call: the usage database, the import of credentials,
-- the projections of the policy, the merged environment, the policy for OpenRouter,
-- `shutil.which`, `urlsplit`, `str.upper`, and `float` and `int` of a text. A command of the bus reads its
-- clock once and has one run id. The process editor meets a digest that may raise, as `digest_document` does
-- on a float; for the documents that the bus itself makes the digest is taken to be defined, so a
-- command or a plan on a document with a float, which raises a TypeError, is outside of the model.
--
-- Three things are coarser than in the code. A time below half a microsecond is zero. A health file is
-- named by the text of its path, so two names of one file are two files, and its lock and temporary
-- files are not there. The acceptance rules of a response (quality.py) are part of the answer.
--
-- Not modelled: the network, the subprocesses and the servers (proxy.py, gateway.py, the workers),
-- the SQL stores (usage.py, interaction_store.py), the command line, the search for the policy's
-- file, an exported catalog and the digests of a policy, the readers of the credentials' files, the
-- calibration and the selection of code for prompts. Locks are taken as given: the operations on one
-- store happen one after the other.
pub mod Prelude
pub mod Dict
pub mod Json
pub mod Regex
pub mod Types
pub mod PolicyConfig
pub mod Health
pub mod Poa
pub mod Client
pub mod Policy
pub mod Routing
pub mod Adaptive
