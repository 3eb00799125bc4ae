-- ===== src/Lib.antt =====
-- metrics-server: from the kubelets' samples to the answers of the metrics API.
--
-- The program and the files that model it. A server ticks once per resolution: it scrapes all
-- nodes, each over HTTP, decodes the samples, and stores the batch; the API computes the usage
-- of nodes and pods from the last two points stored of each.
--   Storage (pkg/storage/storage.go, types.go): the store of two batches; Store, Ready, and the two
--     getters. Storage.Types has the points, resourceUsage and uint64Quantity. Storage.Node and
--     Storage.Pod are nodeStorage and podStorage (node.go, pod.go): `store` and `get_metrics` are
--     their methods, and each loop of a method is a recursion over a list. Their child modules
--     hold the proofs: what a map holds under each key after Store (Lookups), the order of the two
--     points (Ordered), where a previous point comes from (Origin), what is served (Reports), and
--     what a batch that is stored a second time changes (Again).
--     Storage.Served puts the two together over any number of batches, and Storage.Same is about
--     maps of another order, with a quotient in Storage.Same.View. Storage.Locked has the parts of
--     Store, and the readers, under the lock.
--   Decode (pkg/scraper/client/resource/decode.go): decodeBatch and its helpers over the entries
--     that the parser yields; Series reads the text of a series, with the functions of the package
--     bytes in Bytes. Decode.Samples and Decode.Sourced say from which samples a node's point and a
--     container's come.
--   Client (client.go beside it): one request to a kubelet; Client.Built makes the client, and
--     Client.Buffers has the buffers that requests at the same time share, as a step relation.
--   Resolver (pkg/utils/address_resolver.go): the address that a request is sent to.
--   Scraper (pkg/scraper/scraper.go): NewScraper, and Scrape over the nodes in the order of their
--     answers; Scraper.Goroutines has the goroutines and their channel as a step relation, in which
--     that order comes about; Scraper.Observed has the metrics of a scrape, and Scraper.Traced puts
--     it together with the client.
--   Server (pkg/server/server.go, health.go): tick, the scrape loop, RunUntil and the probes;
--     Server.Ticking has the parts of a tick as steps, between which a probe may be served or the
--     context cancelled, and Server.Ticking.Ended compares a loop that has ended with runScrape.
--     Server.Built makes a server (config.go, informer.go, RegisterProbes); Server.Completed is about
--     what it is made of, and Server.Ready about its endpoints readyz and livez.
--   Buckets (pkg/utils/monitoring.go), Monitoring (pkg/server/metrics.go and the monitoring.go of
--     pkg/api and pkg/storage): the buckets of the tick's histogram, and the metrics registered.
--   Options (cmd/metrics-server/app/options): the checks of the flags, and the client
--     configuration made of the kubelet flags; Options.Served has ServerConfig, and Options.Flags
--     declares the flags.
--   Command (cmd/metrics-server/app/start.go): runCommand, from the flags to the run of the server;
--     Command.Main has NewMetricsServerCommand and main (cmd/metrics-server/metrics-server.go).
--   Api (pkg/api/node.go, pod.go, filter.go): List and Get for nodes and pods; Api.Stored is the
--     storage as the getter behind them; Api.Measured goes from two scrapes to an answer for a node,
--     and Api.Measured.Pods for a pod; Api.Freshness has what getMetrics observes, Api.Install the
--     API group of install.go, Api.Table the tables of table.go (Api.Table.Summed:
--     the sums over containers), Api.Table.Converted ConvertToTable.
--   Go, Kube: the types and functions of Go and of the Kubernetes libraries that these parts use.
--   Prelude: notation, lists, dictionaries, and integers with the wrap-around of int64.
--   Tests: runs at concrete inputs.
--
-- How the state is modelled. A struct is a record, and a method that changes it returns the new
-- record; the locks of the storage and of the server's tick field make each operation one step,
-- which for the storage is shown in Storage.Locked.Atomic.
-- A map is an association list, and a loop over a map visits it in the order of the list: the
-- theorems hold for every list, and thus for every order. A time is its number of nanoseconds
-- since the zero time, a duration an int64; where the source computes with int64 or uint64, the
-- wrap-around and the saturation of time.Time.Sub are written out. A panic of decodeBatch is
-- a result of its own, which a scrape takes for an error of its node where the program would end. All loops are structural recursions over finite lists: there is no fuel.
-- The scrape loop runs over the list of what its `select` receives; Server.Ticking says which lists
-- these can be.
--
-- Parameters. float64 arithmetic (Go.Float.Floats), resource.Quantity (Kube.Quantities), the HTTP
-- client and the parser of the text format (Client.Http), the listers and selectors of the API
-- (Api.Lister, Api.Selectors), rest.Config (Options.RestConfigs), the options structs of the API
-- server and the loading of a kubeconfig (Options.Served), the flag sets of pflag (Options.Flags),
-- cobra (Command.Main), the registry of metrics (Monitoring.Registries), and client-go with the API
-- server (Server.Built.Libraries). Laws are assumed of five of them: a conversion of a float64 to
-- uint64 or int64 gives a number of that type; a field that was assigned reads back as what was assigned;
-- a registry takes a metric with a new name and increasing buckets, and a full name is the three
-- parts joined by "_"; a flag set takes a flag with a new name and shorthand; the API server adds a
-- check to the endpoint it is added to, and a health check to both (Server.Ready). The model takes
-- a sort of the library to be an insertion sort, so that the order of items with equal keys is that
-- one.
--
-- Not modelled. Logging; the flags that the libraries declare, the usage text, and GOMAXPROCS; the
-- generated OpenAPI code; cancellation of a request, which the model takes as one of the errors of
-- the HTTP client.
pub mod Prelude
pub mod Go
pub mod Kube
pub mod Storage
pub mod Bytes
pub mod Series
pub mod Decode
pub mod Scraper
pub mod Resolver
pub mod Client
pub mod Server
pub mod Monitoring
pub mod Options
pub mod Buckets
pub mod Api
pub mod Command
mod Tests
