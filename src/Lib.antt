-- ===== src/Lib.antt =====
-- Verification of arks, a platform that serves models on Kubernetes: the gateway, which admits,
-- counts and limits the requests of its users, and the controllers of models, applications and
-- endpoints.
--
-- The parts and how they interact. Envoy sends the headers and bodies of each request and response to
-- the gateway's `Process` (pkg/gateway/gateway.go), which calls a handler for each message. The
-- request handlers find the user of a token through the configuration provider, check the rate limits
-- and the quota, and count the request; the response handlers count the tokens of the answer. Rate
-- limiter and quota service keep their counters in Redis; the provider reads custom resources of the
-- cluster, and copies quota usage between the quota service and the ArksQuota objects. The ArksModel
-- controller prepares the storage of a model and loads it with a worker pod. The controllers of
-- ArksApplication and ArksDisaggregatedApplication wait for the model, then create the
-- LeaderWorkerSets and services that serve it; the ArksEndpoint controller routes the requests for a
-- model name to the services of the applications that are ready.
--
-- Which file models what:
--   RateLimiter       pkg/gateway/ratelimiter: rules (types.go, rate_limiter.go); Window has the keys
--                     and windows (cache_key.go), Limiter has CheckLimit and DoLimit (redis_impl.go);
--                     Refined states them as a limiter of numbers under keys.
--   Quota             pkg/gateway/quota: IncrUsage, SetUsage and GetUsage.
--   QosConfig         the types of pkg/gateway/qosconfig and pkg/gateway/quota, QosToQuotaRequests.
--   Services          the interfaces of the limiter, the quota service and the provider.
--   Api, Provider     the resources of api/v1 that the gateway reads, and
--                     pkg/gateway/qosconfig/arks_impl.go: the lookups, syncQuotaUsage and, in Ticks,
--                     its runs between other changes of the cluster.
--   Gateway           pkg/gateway: Messages (messages, server, util.go), Limits (check.go), Request
--                     (handle_request.go), Response (handle_response.go), Process (gateway.go), Http
--                     (http_handler.go), Wiring (the server over one Redis). Shutdown (the end of the
--                     servers). Room, Kept, Counted, Refused, Tokens, Spent and Streamed follow a request
--                     and its response down to Redis; Concurrent has the requests of one user that run
--                     at the same time, as a step relation.
--   Metrics           pkg/gateway/metrics: the vectors and the collector.
--   Boot              cmd/gateway/main.go: the settings, the Redis client, the factories, main.
--   ArksModel         api/v1/arksmodel_types.go and internal/controller/arksmodel_controller.go: Kube
--                     (the clients), Steps (storage and loading), Reconcile.
--   InstanceSpec      the instance spec of api/v1/arksapplication_types.go and the parts of pods.
--   Controller        the steps of a reconciliation: a step goes on, returns or panics; Hoare has the
--                     rules for what holds after them.
--   Application       api/v1/arksapplication_types.go and
--                     internal/controller/arksapplication_controller.go: Commands (images, commands),
--                     Workload (generateLws, labels, the service), Stages (the parts of
--                     reconcile), Reconcile; Order, Advance, Ended, Running and Safe are about the
--                     stages, Removed about the deletion, Selects about the generated objects.
--   Disaggregated     api/v1/arksdisaggregatedapplication_types.go and
--                     internal/controller/arksdisaggregatedapplication_controller.go: Commands,
--                     Workload, Stages (up to a loaded model), Steps (the creation of the
--                     components), Reconcile (the rest); Labelled, Requeue and Scaled are about them.
--   Endpoint          api/v1/arksendpoint_types.go and internal/controller/arksendpoint_controller.go:
--                     the index and the watches, Routes (the route's backends), Reconcile;
--                     Backends, Watching and Synced are about them.
--   Prelude           library names, texts as lists of bytes, int64 with its wrap-around, decimal
--                     texts. Redis states the Redis client. Samples and the modules Tests are examples.
--
-- How the code is modelled. An operation takes the state that it changes as its last argument and
-- gives it back: the limiter and the quota service that of Redis, the handlers a `State` with the
-- state of the services, the response buffers, the processing times and the metrics. An error is a
-- result: `none` is a nil error, `err` an error with its message. A nil dereference is `crashed`, or
-- `none` for the result of a whole call. A reconciliation of an application or an endpoint has the
-- object in memory and the cluster as its state; each call of a client is a function on the cluster,
-- and an update answers with the object that the server stored. The order in which Go visits a map
-- is a parameter. The clock, random draws, decoders, clients and environment are parameters. The
-- Redis client is a record with the laws that Redis documents; a store in memory satisfies them
-- (Redis.Counters). The loops are structural recursion, so no fuel is used; int64 sums and products
-- wrap at 64 bits, and the theorems on counters assume that the sums fit.
--
-- Not modelled: logs, durations, the loops of the servers, the time between ticks, flag parsing, the
-- Prometheus client, cmd/main.go, the wiring of controllers, owner references, generated code. Of an
-- instance spec the fields that are only copied, other than those of InstanceSpec, are left out. A
-- call of a service is one step; of calls that run at the same time, Concurrent interleaves the
-- checks and the counts of requests of one user, all at one moment of the clock.
pub mod Prelude
pub mod RateLimiter
pub mod QosConfig
pub mod Redis
pub mod Quota
pub mod Api
pub mod Services
pub mod Provider
pub mod Gateway
pub mod Metrics
pub mod Boot
pub mod InstanceSpec
pub mod ArksModel
pub mod Controller
pub mod Application
pub mod Disaggregated
pub mod Endpoint
pub mod Samples
