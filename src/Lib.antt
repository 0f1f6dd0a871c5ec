-- ===== src/Lib.antt =====
-- Decomposition of arithmetic expressions into tasks and their distributed calculation.
--
-- The manager reads an expression, gives each distinct subexpression a number, builds the graph of
-- their operands and sorts it. The dispatcher keeps a status for each number of each problem, sends
-- a request for every task whose operands are computed, and on each reply looks for new ones. The
-- broker passes requests to workers with a free core, queues the others, and passes replies on. A
-- worker reads the operands of a task in the database, calculates and writes the result there.
--
-- Files and sources (paths from the root of the repository):
--   Domain/Types, Domain/Arith: common/domain/domain.h and domain.cpp. A `Scalar` is an integer that
--     every operation checks against 32 bits: signed overflow is a fault, as C++ gives it no meaning.
--     std::reduce may combine in any order and grouping, which `Reducer` takes as a parameter.
--   Expr: manager/src/decomposition/expression.h and expression.cpp. A null std::unique_ptr is
--     `nullptr`; the virtual functions of the seven classes are functions by clauses. `equals` of
--     Expr/Equality is their operator==, `expr_eq` its value where no operand is null, on which the
--     visitor runs: the traversal dereferences every operand first. Expr/Json is
--     the reader of documents, whose parser is a parameter; the members of an object stand in the
--     order in which the JSON library iterates over them. Expr/Ast is ast.h and ast.cpp,
--     Expr/Printing expression_visitors.cpp.
--   Dag, Dag/Library: manager/src/decomposition/dag_visitor.cpp and dag.h. boost::adjacency_list is
--     the interface `GraphLibrary`, whose laws are those of vecS containers.
--   Decomposition: manager/src/decomposition/decomposition.cpp. boost::topological_sort is a
--     parameter; `Sorts` is what boost documents of it, for the graphs that are built here.
--   Dispatch: manager/src/dispatch/dispatch.h and dispatch.cpp. A function that holds the mutex is
--     one step on the state; the problems are a list of entries with distinct keys.
--   Messages: proto/task.proto, proto/worker.proto. A uint32 field keeps the low 32 bits.
--     Dispatch/Truncated is about problem numbers that it does not hold.
--   Broker: broker/src/broker-impl/broker_impl.h and broker_impl.cpp, with
--     common/communiation/read_message.h. A handler returns the state and the messages it sends.
--   Database: database/database-client/database_client.cpp and
--     database/database-server/database-server-impl/database_server.cpp, as lists of rows. As gRPC
--     documents, an exception in a handler ends the call with a status that is not OK; the client
--     does not read the status, so a failed write changes nothing and a failed read gives an unset
--     field.
--   Worker: worker/src/worker-impl/thread_pool.cpp and worker_impl.cpp. A pool calculates at most as
--     many tasks at a time as it has threads, one for each core of the worker.
--   Manager: manager/src/grpc-server/grpc_server.cpp, manager/src/dispatch/task_dealer.cpp, and
--     `CalculateProblem` and `RunDispatcher` of dispatch.cpp, before and after each wait.
--     Manager/Connection is `SendRequest`. Manager/Entries takes a round of the dispatcher apart into
--     the steps on the single problems, which System starts from.
--   System: the dispatcher, the workers and the store together, on one problem. The requests and
--     replies under way stand in lists of which any element may be taken next; each arrives once. The
--     dispatcher takes a reply only if it finds the problem under the number in the reply. A
--     worker's calculation is one step: the rows that it reads are never changed, so what other
--     tasks do meanwhile does not matter to it. Other problems may calculate and clear on the same
--     store at any time. `evaluate` is the value of a tree.
--   Cluster: the same with the broker, the queues of the workers and the connections: a step is a
--     handler of Broker, one of the steps of Worker, or the dispatcher's send or reply. The two pipes
--     and a worker's subscription keep their order, responses may overtake each other; a worker reads
--     all that is published and keeps what is for it. `Elsewhere` has what may happen besides: a
--     worker joins, a socket does not take a request, a subscription loses a message, other problems
--     use the same broker and workers.
--     `Run` allows all of this; `Alone` is a run of one problem without it, in which at most a given
--     number of tasks wait at the broker, since its queue loses a task when two or more wait.
--     Cluster/Explained relates the cluster to System: the problem's own messages, with repetitions
--     and losses, explain every state. Cluster/Weights sums over what is under way.
--   Client: client/src/grpc-client/grpc_client.cpp and client-config/client_config.cpp; the service is
--     a parameter.
--   Format: common/log_format/log_format.h, as functions to text.
--   Tests: the parameters at concrete values, and the theorems at concrete inputs.
--
-- A std::unordered_map is a list of entries; no theorem depends on their order except through what
-- the code itself reads in iteration order. An exception, a dereference of nothing and an overflow
-- are a `Fault`. A size_t that the code counts up or down wraps at 2 ^ 64; task and problem numbers
-- are indices, which no graph in memory brings to that bound. All loops are structural recursions,
-- so no definition has fuel.
--
-- Not modelled: sockets, gRPC calls, the SQL connection and threads as such (their effects on the
-- state are steps), the parser of JSON and the parser of messages (parameters), and the libraries
-- under lib/.
pub mod Prelude
pub mod Domain
pub mod Expr
pub mod Dag
pub mod Decomposition
pub mod Messages
pub mod Dispatch
pub mod Broker
pub mod Database
pub mod Worker
pub mod Manager
pub mod System
pub mod Cluster
pub mod Client
pub mod Format
pub mod Tests
