-- ===== src/Lib.antt =====
-- Verification library for the client of Net Test Toy, the part in TypeScript under
-- ui-net-test-toy/ui/src. The client shows a lab of containers, their BGP daemons and the traffic
-- between them. Pages dispatch actions to a Redux store, whose slices are pure functions on a
-- state; thunks call the services of the lab over HTTP and dispatch what they settle with. A cache
-- of answers, the list of connections and the login use the browser's storage beside the store.
--
-- Which file models which part (paths from the repository's root):
--   Base          lists, texts, dictionaries, lists with a limit, and the write to the item with an
--                 id or else the push that most slices make;
--   Storage       the browser's storage area, as a dictionary of texts;
--   Cache         ui-net-test-toy/ui/src/_common/utils/cacheUtils.ts. `construct`, `set`, `get`,
--                 `has`, `remove`, `clear`, `get_stats`, `clean_expired_entries`,
--                 `handle_storage_error`, `load_status`, `record_api_success` and so on are the
--                 methods of CacheManager on its state, and Cache.Fetch.with_cache is withCache;
--   Connections   ui-net-test-toy/ui/src/_common/store/connectionSlice.ts. `reduce` is the slice's
--                 reducer on the state and its copy in the storage, with a function for each case;
--                 `sync_local_daemons` is syncLocalDaemons, Connections.Load.load_from_storage is
--                 loadFromStorage;
--   Topology      ui-net-test-toy/ui/src/_common/store/slices/topologySlice.ts. `reduce` is the
--                 reducer with all thunk stages, `settle` is the way a service result ends a thunk,
--                 `collect_topologies` is the loop of fetchMultiClientTopologies;
--   Bmp           ui-net-test-toy/ui/src/_common/store/slices/bmpSlice.ts, likewise;
--   Auth          ui-net-test-toy/ui/src/auth/store/authSlice.ts. `reduce` is the reducer with its
--                 writes to the storage; the `settle_` functions are the thunks, `initial_state` is
--                 what a page load reads;
--   Testing       ui-net-test-toy/ui/src/_common/store/networkTestingSlice.ts;
--   LabManager    ui-net-test-toy/ui/src/_common/store/labManagerSlice.ts. `reduce` is the reducer
--                 with its writes to the storage, `lab_data` is getLabDataFromHosts of the service,
--                 `settle_single` is fetchSingleHostData;
--   Thunk         the three things a slice hears of a thunk, and what they do to a flag and a count;
--   Http          ui-net-test-toy/ui/src/_common/utils/fetchWrapper.ts and apiLogger.ts:
--                 Wrapper.fetch_wrapper is one call, from what the browser gives to what the caller
--                 gets and the history keeps; Program has the language of the services, in which a
--                 method is the program of its requests, `run` answers them by a server and `sent`
--                 lists them;
--   TopologyApi   ui-net-test-toy/ui/src/_common/services/topology/topologyService.ts: every method,
--                 as such a program;
--   TopologyEdits ui-net-test-toy/ui/src/_common/services/topology/topologyMutations.ts: the edits
--                 and the merge, as the lists they make (Graph) and as programs over TopologyApi;
--   TopologyManager
--                 ui-net-test-toy/ui/src/_common/store/topologyManagerSlice.ts: `reduce` is the
--                 reducer, `execute` a thunk from its dispatch to the last action, against a server
--                 that answers what TopologyApi sends;
--   NetFlow       ui-net-test-toy/ui/src/_common/store/slices/netflowSlice.ts: `reduce`, and in Stages
--                 the thunks that fetch;
--   Triggers      ui-net-test-toy/ui/src/_common/hooks/useTriggerEvaluation.ts: `evaluate` is one
--                 evaluation of a trigger, `evaluate_all` the body of the effect, and a run is a
--                 list of them at the times they happen;
--   FlowSpec      ui-net-test-toy/ui/src/_common/store/flowspecSlice.ts and
--                 ui-net-test-toy/ui/src/_common/services/flowspecService.ts;
--   Health        ui-net-test-toy/ui/src/_common/services/connection/connectionService.ts, over
--                 Http.Wrapper: what each request meets with, and when, is an argument;
--   Views         ui-net-test-toy/ui/src/_common/store/slices/bannerSlice.ts, searchSlice.ts,
--                 mobileSlice.ts and greTunnelsSlice.ts, with a reducer each;
--   Neighbors     ui-net-test-toy/ui/src/_common/store/slices/neighborSlice.ts and
--                 ui-net-test-toy/ui/src/_common/services/neighbors/neighborService.ts, with the
--                 comparison of texts in a locale as an argument.
-- In most, Types has the state and the actions, Tests the runs at concrete inputs, and the other
-- files are named for what they prove. A thunk is what the slice hears of it: pending, then
-- fulfilled or rejected. A sequence of actions, in the order in which they reach the store, is a
-- list that `run` applies; overlapping requests are such sequences.
--
-- Parameters. The time is an argument of each call that reads the clock. JSON, the room that the
-- storage has left and the decoding of a token's payload are functions that the definitions take;
-- theorems that need JSON to be faithful, or room for a text, say so; Auth takes the storage to
-- have room for its tokens. Values that a slice stores and never reads have an arbitrary type.
-- A server answers each request of a program, as the requests before it may lead it to. The requests
-- of a Promise.all are taken in the order in which the code starts them. Http takes JSON's `parse`;
-- FlowSpec takes the reading and the writing of rules; Triggers takes the numbers that
-- need not be whole, with their order. The parameters of a URL are a list of pairs. The position of
-- a node is kept as the text it is printed to, and the time stamp of a result, which nothing
-- reads, is left out.
-- Numbers are natural numbers, as times, intervals, counts and limits are in the code. `null` and
-- `undefined` are both `none`, and an object with keys is an association list in the order of
-- insertion; but in Cache `none` is null alone, and `undefined` is one of the data.
--
-- Fuel is used for decimal texts only: it is one more than the number, which has no more digits.
-- All other loops are structural.
--
-- Not modelled: rendering and the hooks of React, sockets, logs, the change of the window's address,
-- the download of an export, the selectors of the store, the slice for Docker
-- networks, the services for containers, flows and monitoring whose results the
-- slices take as arguments, the mutations that call methods which the topology service does not
-- have, and the services in Python.
pub mod Auth
pub mod Base
pub mod Bmp
pub mod Cache
pub mod Connections
pub mod FlowSpec
pub mod Health
pub mod Http
pub mod LabManager
pub mod Neighbors
pub mod NetFlow
pub mod Storage
pub mod Testing
pub mod Thunk
pub mod Topology
pub mod TopologyApi
pub mod TopologyEdits
pub mod TopologyManager
pub mod Triggers
pub mod Views
