-- ===== src/Lib.antt =====
-- Verification of the reverse proxy: what the providers make of the services that they watch, the part
-- of the program between the providers, which send dynamic configurations, and the handlers that
-- requests run through, and the certificates and goroutines that stand behind it.
--
-- How the parts interact. A provider sends a message (types/types.go). listenProviders in
-- server/server.go gives it default values and passes it on, at once or after a delay.
-- listenConfigurations puts it among the current configurations and calls loadConfig, which makes a
-- router for each entry point: each frontend becomes a route by its rules (server/rules.go), and the
-- route gets a redirection or the chain of a backend, behind the middlewares that its rules ask for
-- (middlewares). The health checks that are set on the way (healthcheck/healthcheck.go) replace those
-- that ran before, and postLoadConfig asks for the certificates of the hosts in the rules
-- (acme/acme.go, which keeps them in an account, acme/account.go, of a store, acme/localStore.go). The
-- providers (provider) read labels, tags and ingresses, filter them, and group them for a template;
-- the one for Kubernetes makes a configuration itself. Goroutines run in a pool (safe/routine.go),
-- which stops and starts them together. The static configuration (server/configuration.go) says
-- what entry points there are, and createTLSConfig makes their TLS configurations.
--
-- The files:
--   Prelude, Text, Net: what the components share. Go's strings are lists of code points, its maps
--     association lists in the order in which a loop visits them, and `int` is an integer without
--     bounds. Text and Net model what is used of the packages strings and net of Go.
--   Types, Types/Balancing, Types/Constraint: types/types.go. A nil pointer, slice or map that the
--     program tests for is `none`.
--   Rules, Rules/Domains, Rules/Route: server/rules.go and getRoute of server/server.go. The package
--     mux and sort.Sort in the order of prefixes are a record of operations with what the documentation
--     says of the sort, Mux, given as a parameter.
--   Provider: MatchConstraints and Normalize of provider/provider.go. Its children Docker, Kubernetes,
--     Marathon, Mesos, Rancher, Ecs, ConsulCatalog and Eureka model the provider of that name:
--     docker/docker.go, kubernetes/kubernetes.go, marathon/marathon.go, mesos/mesos.go,
--     rancher/rancher.go, ecs/ecs.go, consul/consul_catalog.go and eureka/eureka.go, all in provider.
--     Docker/Listing, Kubernetes/Ingresses and Marathon/Tasks hold what is made of the services,
--     Docker/Services the labels of several services of one container.
--   Middlewares: Paths (addPrefix.go, stripPrefix.go, stripPrefixRegex.go, replace_path.go), Retry and
--     Recorder (retry.go), Stats (stats.go), Auth (authenticator.go), all in middlewares.
--   HealthCheck: healthcheck/healthcheck.go, over an interface of load balancers with its laws.
--   Acme: the certificates of an account, acme/account.go. Acme/Jobs: the jobs and handshakes of
--     acme/acme.go, one after the other, with the lock of acme/localStore.go as a field of the store.
--   Safe/Pool: the pool of safe/routine.go as a state machine. In Safe/Pool/Steps its calls, the
--     rounds of the loops of Start, and what each goroutine does are steps in any order; channels,
--     contexts and the variables of loops are numbers that the state has a list for.
--   Server: Settings (server/configuration.go); of server/server.go Defaults
--     (defaultConfigurationValues), Throttle (listenProviders as steps of received messages and of
--     goroutines that wake), Handlers (wireFrontendBackend, loadEntryPointConfig,
--     parseHealthCheckOptions), Load (loadConfig: Frontends has its loops, Backends the chain of a
--     backend), Reload (listenConfigurations), PostLoad (postLoadConfig), and TlsConfig
--     (createTLSConfig, with Certificates.CreateTLSConfig of server/configuration.go).
--   Tests: concrete inputs.
-- A child module that is named for what it proves holds the lemmas of its parent.
--
-- Errors are values, and a panic or an exit of the program is an outcome of its own: `panicked` of
-- getRoute and of processPorts, `abort` of loadConfig, `false` of postLoadConfig, `none` of what a
-- provider reads through a nil pointer or beyond a list. A goroutine is a step that may come at any
-- later point of a sequence of steps.
--
-- Fuel: the retry loop has one round for each attempt that the limit allows and one at least, which
-- is enough because an attempt at the limit ends it. The loop that removes duplicate certificates
-- has one round for each certificate, which is enough because no round makes a certificate. The
-- loop that cuts tasks into chunks has one round for each task, which is enough because each chunk
-- takes one at least. All other loops are structural.
--
-- Not modelled: the clients of the services that providers watch and their templates, which the package
-- text/template fills; the providers of key-value stores, of DynamoDB and files; the challenges
-- and keys of ACME and the start of its configuration; the cluster's store and election; logging,
-- sockets, the command line, the web interface and the vendored libraries. Expressions, globs,
-- passwords, key pairs, conversions of numbers and the answers of the network are parameters of the
-- definitions that use them.

pub mod Prelude
pub mod Text
pub mod Types
pub mod Net
pub mod Rules
pub mod Middlewares
pub mod Provider
pub mod HealthCheck
pub mod Server
pub mod Acme
pub mod Safe
pub mod Tests
