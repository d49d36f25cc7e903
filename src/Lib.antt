-- ===== src/Lib.antt =====
-- A registry of machine-learning models that deploys them through KServe and splits their traffic
-- through an AI gateway. The program is a Go service in hexagonal layers: HTTP handlers call the
-- services of internal/core/services, which work on the values of internal/core/domain, store them
-- through the repositories of internal/adapters/secondary/postgres and drive the cluster through the
-- clients of internal/core/ports/output.
--
-- Base holds what every module shares: the Go `int` with its wrap-around (Base/Int), texts,
-- Boolean tests and lists over native numbers.
--
-- Domain models internal/core/domain: the errors and the result of a call (Domain/Result), traffic
-- configurations and variants (Domain/Traffic), environments, services and serve models
-- (Domain/Serving), models and versions (Domain/Registry). A method with a pointer receiver is a
-- function that returns the new value; uuid.New and time.Now are arguments.
--
-- Store models the tables, one function for each SQL statement that the services use, under the
-- constraints of the migrations: Store/Variants and Store/Configs for the tables of
-- traffic_variant_repo.go and traffic_config_repo.go, Store/Serving for the repositories of
-- environments, services, serve models, models and versions. A service call is a function from the
-- tables to a result and the tables (Store/World): it returns a value, an error or panics, and the
-- tables that it has changed stay changed, as the services open no transaction. A text is `null` in
-- the database if nullableString makes it so. Failures of the database, fresh identifiers, the clock
-- and the answers of both clients are an oracle, a function of the number of the question, so that
-- the theorems hold for every sequence of answers. The calls to the cluster are logged in order.
-- Store/Hoare has triples for the calls, with one postcondition for a value and one for errors and
-- panics; Store/Silent and Store/Quiet have the calls that change no table, Store/Gives what holds of
-- a returned value alone, and Store/Reliable the calls that succeed if the database answers.
--
-- Traffic models internal/core/services/traffic.go: Traffic/Configs (CreateConfig, DeleteConfig),
-- Traffic/Canary (StartCanary, UpdateCanaryWeight, PromoteCanary, Rollback), Traffic/Variants
-- (AddVariant, UpdateVariant, DeleteVariant, BulkUpdateWeights, PromoteVariant) and Traffic/Route
-- (GetConfig, syncAIGatewayRoute and the calls of the clients). The variants that Go changes through
-- pointers are written back to the table by the same call before they are read again, so they are
-- values here. A Go map that a loop ranges over is a list in the order of that loop.
--
-- Deploy models internal/core/services/deploy.go: Deploy, AddModelVersion, RemoveModelVersion,
-- GetServedModels, Undeploy and SyncStatus.
--
-- Registry models the services on models and versions: Registry/Slug is generateSlug of
-- internal/core/services/registered-model.go, Registry/Models its Create, Get, Update and Delete, and
-- Registry/Versions model-version.go and model-artifact.go. Store/Registry has their statements, with
-- the cascades and restrictions of the foreign keys; a record that is referred to is not deleted.
-- The map of an update is a record of optional fields.
--
-- Serving models serving-environment.go, inference-service.go and serve-model.go of
-- internal/core/services, with the statements of Store/Environments: the restriction on environments
-- that are used, and the cascades that follow the removal of a service.
--
-- Cluster models the clients, internal/adapters/secondary/aigateway/client.go and kserve/client.go:
-- Cluster/Json has the values of an unstructured object and Go's maps, slices and type assertions,
-- Cluster/Server the accessors of k8s.io and the dynamic client as parameters with their laws,
-- Cluster/Gateway the builders, parsers and operations on routes, AIServiceBackends, backends and
-- limits of rates, Cluster/Kserve those of inference services, and Cluster/Services the services of
-- internal/core/services/backend.go and ai_service_backend.go over that client. The components above see
-- the clients through their ports, as the oracle says. An object that the server returns has the
-- spec that was sent, as json.Marshal encodes it; the server's defaulting and pruning of fields by the
-- schemas of the resources are left out.
--
-- Domain/Virtual and Virtual model the names of models that are mapped to backends of several
-- providers, internal/core/domain/virtual_model.go, the statements of
-- internal/adapters/secondary/postgres/virtual_model_repo.go (Virtual/Tables) and
-- internal/core/services/virtual_model.go (Virtual/Service). Its state has the tables and the cluster,
-- and it calls the client of Cluster/Gateway itself, not its port. Cluster/Server/Keeps has the
-- predicates that each statement and each call keeps, and Cluster/Server/Leads triples for the calls
-- whose result the next ones rely on. The unique constraint that the migration writes with an
-- expression is left out, as PostgreSQL refuses it.
--
-- Http models the edge, internal/adapters/primary/http: Http/Errors the mapping of errors to statuses
-- in handlers/error-mapper.go, Http/Gin the reading of the project, the identifiers and the body of a
-- request, Http/Traffic handlers/traffic.go and dto/traffic.go, Http/Virtual handlers/virtual_model.go
-- and dto/virtual_model.go. A handler is a function from a request and the tables to a response and
-- the tables, over the services above; uuid.Parse and the text of the validator are parameters, a body
-- is the struct that the decoder fills or the text of its error, and the tags on its fields are
-- Boolean tests. Http/Traffic/Calls has the requests of RegisterRoutes and, as their abstract
-- description, the calls of the service that they ask for; the list of configurations is left out, and so
-- is that of virtual models.
--
-- Every loop of the code runs over a list and is structural recursion, so there is no fuel and no
-- bound on it. A stored weight is a natural number, since each is written behind a check for 0 to
-- 100; weights in requests are integers with the wrap-around of int64.
--
-- Not modelled: the HTTP handlers on models, versions, artifacts, serving, deployments, backends and
-- metrics with their data transfer objects, configuration and start-up, the client of Prometheus and
-- the metrics service, the list queries with filters, the Update of an inference service, whose states
-- may be any text, labels, owners and tags, and the columns that only display reads.
pub mod Base
pub mod Domain
pub mod Store
pub mod Traffic
pub mod Deploy
pub mod Registry
pub mod Virtual
pub mod Http
pub mod Serving
pub mod Cluster
pub mod Examples
