-- ===== src/Lib.antt =====
-- Lucas, a home automation proxy: a gateway with a message broker, and hubs whose workers connect
-- to it from inside a household. This library models the broker, the worker and the client of
-- internal/hermes, of internal/hub the device manager with its cache of nonces and the service that
-- answers requests, of internal/gateway the database and the broker service over it, and the
-- televisions of internal/bravia.
--
-- Base: names shared by all modules, lists, maps and texts over the native numbers.
-- Hermes/Protocol, Hermes/Message: internal/hermes/protocol.go and message.go.
-- Hermes/Wire: encoding/json and the zmq4 sockets, which are not part of the repository, as a
--   parameter: encoders and decoders as functions, and what each call of Send and Dial returns.
--   No law is assumed of them but where a theorem names one.
-- Hermes/Broker: internal/hermes/broker.go. State has the data; a pointer to a BrokerWorker is an
--   index into a heap, which the map of workers and the lists of the services share. Sends,
--   Registry and Handlers have one function for each Go function (sendToWorker is send_to_worker,
--   handleWorkerReady is handle_worker_ready), Routing the way of a raw message to its handler,
--   Ticker and Run the loops that call the handlers, as steps of one state.
-- Hermes/Worker: internal/hermes/worker.go, in the same way. A panic is a value.
-- Hermes/Client: internal/hermes/client.go. A PendingClientRequest is an index into a heap, which
--   the maps of pending requests and the waiting goroutines share; Channel has the channels of
--   capacity one, whose second closing panics. Sends, Responses, Requests and Calls have the
--   operations, Loops one turn of each goroutine's loop. The message ids are arguments.
--   A request that waits has a script: which turns others take meanwhile, and which case of its
--   select is taken.
-- Hub/Nonce, Hub/NonceCache: internal/hub/nonce_cache.go. Hub/Lru is the LRU cache of hashicorp,
--   which is not part of the repository, as an interface with the laws of its documentation;
--   LruList is one over lists.
-- Hub/Device, Hub/DeviceManager: internal/device/device.go and internal/hub/device_manager.go. The
--   devices themselves are an interface: how one is made, and what its Process gives at each call.
-- Hub/Service: the handler of the hub's one service, in internal/hub/worker_service.go.
--   Hub/Workers is its WorkerService. Hub/Codec is what it takes from encoding/json and from the
--   printing of floats and times, as a parameter without laws but where a theorem names one.
-- Gateway/Store, Hubs, Presence, Devices, Users: internal/gateway/database.go. The tables are
--   lists of rows, and a statement of SQL is the operation on them that it states; an operation of
--   the code is a chain of such actions, and its writes stay when a later one fails. Which
--   statements fail, and with what text, is the parameter `faults`, by the number of the
--   statement. Rows, Keys, DeviceRows, KnownHub, Integrity, Writes and HubKeeping are the lemmas,
--   Registration and NewHub the two ways of a registration, Operations the list of all that writes.
-- Gateway/Registry, DeviceList, Service, Sender: internal/gateway/broker_service.go: the
--   registry of services, the device lists of hubs (ProcessDeviceListResponse is
--   process_device_list_response), the service itself, and its commands; Address the client's
--   address. HubList and Commands compose the gateway with the hub: a list that the hub's handler
--   makes, and a command that the gateway sends.
-- Bravia: internal/bravia. Codes has the tables, Client the HTTP requests, Remote the way of an
--   action to its response; `bravia_devices` fills the hub's interface of devices, and Hosting has
--   a hub of televisions. World is what the code relies on outside the repository (encoding/json,
--   strconv, fmt, net/http), as a parameter without laws. A header is named as the code names it.
--
-- Handlers run from start to end: the steps of a run are the orders in which the goroutines of
-- the broker, of the worker, of the client or of the hub can take turns at whole handlers;
-- interleavings inside a handler are not modelled. Time is an argument, in nanoseconds and for
-- the database in seconds, read once for each handler. Counters do not wrap; the backoff of the
-- worker does, in an int64. The order of an association list stands for the order of a Go map's
-- iteration. Every loop of the models is a structural recursion, so no fuel is needed: the rounds
-- of connect (ten of the worker, five of the client) and the attempts of a request are counted
-- loops, and the chain of goroutines that reconnect is given its length.
--
-- Not modelled: the start of the goroutines, logging, the hub's daemon, configuration and
-- discovery, the texts that create and migrate the schema, the gateway's API and keys, the command
-- line and the web interface. The error for an answer of the hub that json.Marshal refuses is
-- left out: an answer holds texts and JSON, which encode. A request of the
-- televisions is one that is handed to the HTTP client; what that sends by itself to follow a
-- redirect, with the same headers, is not modelled. Among the turns of a client's run there is no
-- synchronous request, which is a function of its own.
pub mod Base
pub mod Hermes
pub mod Hub
pub mod Gateway
pub mod Bravia
