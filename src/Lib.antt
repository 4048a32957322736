-- ===== src/Lib.antt =====
-- Eurus joins WebSocket gateways to services over a message transport. A client's messages come to a
-- gateway, which resolves the path to a service, maps the socket to one instance of it and sends the
-- message there; the instance keeps a connection for each socket and answers through the gateway.
--
-- The files and the code that they model (paths from the repository's root):
--   Prelude      lists, maps and decidable equality, as the components use them
--   Descriptor   service-descriptor.go, route-descriptor.go, gateway-descriptor.go: the records, and
--                the heap that service descriptors are shared through
--   Indexer      gateway-service-indexer.go: SetServiceDescriptor is `set_service_descriptor`,
--                UnsetService and unsetServiceLocked are `unset_service`, PruneStaleServices is
--                `prune_stale_services`, ResolveService is `resolve_service`; MapSocket, UnmapSocket
--                and SocketIDsByServiceInstance are in Indexer/Sockets; Indexer/Spec is an abstract
--                registry and what each call does to it, and Indexer/Views what it keeps of an
--                indexer
--   Gateway      gateway.go: Handle is `handle` with its loop `deliver`, closeSocket is
--                `close_socket`, the bodies of both loops are `prune_tick` and `announce_tick`;
--                Gateway/Settled says how a call of Handle may end; in Gateway/Threads Handle,
--                closeSocket, handleSocketClosure and closeAllSockets are goroutines that take turns
--   Service      service.go: handleServiceMessage, ensureConnection, closeConnection,
--                pruneStaleResources and heartbeatConnections under the same words;
--                Service/Hosting is a service together with the connections that it holds, and
--                Service/Loops its pruneLoop and heartbeatLoop, over the events that they select
--   Connection   connection.go: the mailbox is a step relation, since its select statements choose
--   Lifecycle    lifecycle.go: the runs of Gateway.Connect and Service.Listen
--   Startup      Gateway.Connect of gateway.go is `connect` in Startup/Connect, and Service.Listen of
--                service.go is `listen` in Startup/Listen; what both do alike is in Startup
--   Nats         transport/natstransport: Nats/Dispatch is dispatch.go, a step relation of dispatches
--                and workers; Nats/Chunks is streamChunks and receiveChunks of message.go, where
--                each round sends a byte, so that one unit of fuel more than the payload has bytes
--                is enough; Nats/Transfer is that protocol with the bytes and acks between its two ends;
--                Nats/Envelopes is sendEnvelope, the acks and one round of serveMessages of message.go,
--                and Nats/Serving the whole of serveMessages with its workers;
--                Nats/ServiceMessages and Nats/GatewayMessages are message-service.go and
--                message-gateway.go, whose two ends Nats/Delivery joins, with the handlers of
--                service.go and gateway.go in Nats/Delivery/Conversation; Nats/Broadcasts is
--                announce-service.go, announce-gateway.go and socket-closed.go, with their subjects
--                and the msgpack forms of the descriptors; Nats/Heartbeats is socket-heartbeat.go,
--                on fuel in the same way as the chunks; Nats/Subjects is namespace.go, over code points;
--                Nats/Subscriptions is nats-transport.go
--   Reconcile    the heartbeats of service.go over NATS against the gateways of gateway.go
--   Upkeep       announceLoop and pruneLoop of gateway.go over time, with a service that answers
--   Local        transport/localtransport: the tables of handlers; a broadcast calls those of its table
--                in any order
--   Ids          generate-id.go, over the numbers that rand.N returns
--
-- A Go map is an association list, whose order stands for an order in which `range` visits it; no
-- theorem fixes that order. A pointer to a service descriptor is a `Ref` into a heap, since the
-- indexer's tables share descriptors and write through them. Times and intervals are nanoseconds.
-- Calls that leave a component are recorded as values in their order, and what a transport, a router
-- or a socket answers is an argument.
--
-- The loop of Handle runs on fuel. Each round that does not end it removes an instance of the
-- service, so that one unit more than the service has instances is enough, for whatever the
-- transport answers.
--
-- msgpack is a pair of functions to bytes and from bytes at each type; where a theorem needs that a
-- value comes back, it says so of that value. NATS answers a request with the reply that the other
-- side's model publishes, or with an argument.
--
-- In a run of Connect and of Listen, what the handlers and the loops do to the state is an argument,
-- and so is the first error of the group of goroutines. Calls of Ready and Close during a run are in
-- Lifecycle.
--
-- Not modelled: when tickers fire; NATS, msgpack and Velaros, which are other packages; debug output.
pub mod Connection
pub mod Descriptor
pub mod Gateway
pub mod Ids
pub mod Indexer
pub mod Lifecycle
pub mod Local
pub mod Nats
pub mod Prelude
pub mod Reconcile
pub mod Service
pub mod Startup
pub mod Upkeep
