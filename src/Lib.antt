-- ===== src/Lib.antt =====
-- tensorlib: a C++ library of memory management, linear algebra, graphs and combinatorics
-- (tensorlib/), with a simulation network (network/) and neural networks (neural/) on top of it.
-- This development models the core of tensorlib/; of the network, the channels, the messages, both
-- ends of a connection, how a simulation starts and stops and its timed events; and the forward
-- pass and the training of neural/.
--
-- The parts and the files that model them:
--   * Prelude: what the other modules share. Prelude/Faults has the outcomes of code that can fail:
--     a failed TENSORLIB_ASSERT is `assertion`, a thrown exception `exception`, and an access that
--     C++ leaves undefined `undefined`. Prelude/Word has the wrap-around of natural_t and size_t at
--     2^64, Prelude/Lists the vectors of the standard library, Prelude/Loops counting loops.
--   * Binomial: tensorlib/math/n_choose_k.cpp. The static table `binomials` is an argument and part
--     of the result of each call. Choose defines the coefficients by Pascal's rule.
--   * Arena: tensorlib/core/arena.hpp and tensorlib/core/arena.cpp, the pages and regions of the
--     arena allocator, and the chunk operations of tensorlib/core/arena_allocator.hpp. The blocks
--     that malloc returns are arguments, as is the memory that memset clears. Layout says when an
--     arena is sound and its regions do not overlap.
--   * Real: the arithmetic up to an epsilon of tensorlib/core/types.hpp. The floating point
--     operations are a record of arguments, with no law assumed of them; sums are
--     taken in the order in which the code adds.
--   * Vector and Matrix: tensorlib/linalgebra/dyn_vector.cpp and dyn_matrix.cpp with their headers.
--     IsVector and IsMatrix read them as functions from an index, or a row and a column, to an
--     entry.
--   * Graph: tensorlib/graph/graph.hpp and tensorlib/graph/graph.cpp. Adjacency makes a matrix of a
--     graph, and Update reads a graph as a map from two ends to a weight. Graph/Sort has
--     topological_sort and has_cycle, whose marks, stack and copy of the graph are records.
--   * Ref: tensorlib/core/ref.hpp and tensorlib/core/ref.cpp. A heap has a counter for each object
--     and the registry of references; the handles of a program stand in slots, and each constructor,
--     assignment and destructor of ref is an operation on the slots.
--   * Channel: network/message/channel.hpp, the queue that the two ends of a channel share. A run is
--     an interleaving of the steps of both ends, each of which holds the mutex.
--   * Flexbuffer: what the network uses of the flexbuffers library, a parameter with laws, which
--     Flexbuffer/Codec meets with a plain format.
--   * Message: network/message/message.hpp and network/message/message.cpp, the builders and
--     parsers of the messages.
--   * Session: network/simulation/session.cpp and session_message_handler.cpp with their headers,
--     the server's end of a connection. A session is a record, each function and completion handler
--     a function on it; asio shows in what was handed to its sends and how many receives it has
--     pending.
--   * Wire: network/simulation/read_write_buffer.hpp with the writes of
--     network/simulation/layer_control_block.cpp, which simulation_node.cpp repeats. A message that
--     is longer than the buffer, or a socket that is null, is `undefined`.
--   * Layer: network/simulation/simulation_layer.cpp, layer_control_block.cpp and
--     layer_message_handler.cpp, the client's end of a connection, with its control block in one
--     record. Whether an acceptor can be made at an endpoint is a parameter.
--   * Node: network/simulation/simulation_node.cpp and node_message_handler.cpp.
--   * Control: network/simulation/simulation_control.cpp, the server's connections and their ids, and
--     the wait for them to close of do_shutdown_procedure in simulation_state.cpp, as rounds.
--   * Simulation: the waits of both threads in network/simulation/simulation_state.cpp. A loop that
--     waits takes its rounds as a list, and `none` is a wait that is not over after them.
--   * Events: network/simulation/simulation_event_handler.cpp, simulation_event.cpp and timer.cpp
--     with their headers, handle_event of simulation_state.cpp and bind_control_events of
--     simulation.cpp. The two maps of the handler are lists ordered by the ids of their keys; the
--     timers of asio show in the calls that are made of them, and asio calls on_timeout with what
--     became of a wait.
--   * Neural: neural/neural/activation.cpp and the construction and the forward pass of
--     neural/neural/ann.cpp, over Vector and Matrix. Activation functions are maps of vectors, or
--     null. Neural/Training has the accessors, the binding of layers, the cost, the finite
--     differences and the learning of that file, Neural/Backpropagation its backpropagation and the
--     training of a simple model. A network that a function takes by reference is part of its
--     result. Parameters reads a network as functions from a layer and indices, and
--     Backpropagation/Deltas has the slopes that the code computes as functions of these.
--   * Handshake: a session of Session with a layer or a node at the other end.
-- The arena is where references get their objects, which the model of references takes as cells of
-- its heap; the neural networks call the matrices, as graphs do; vectors and matrices hold their
-- data in vectors of the standard library. An event that is not a request to stop becomes a message
-- from the main thread to the thread of the simulation, whose record is that of Simulation.
--
-- Loops: counting loops run as often as the code's. The `while` loops take fuel, and running out
-- is the outcome `out_of_fuel`, which no run of the code has. Fuel: in Binomial n + 1 rounds for
-- row n, since each adds a row, and in Arena one more than the pages, since each round takes one;
-- in Graph/Sort, Kahn's loop has the length of the stack, the number of edges and 1, since each
-- push takes an edge from the copy, and the depth-first visit and its loop have a round more than
-- nodes, since each visit and each round marks one.
--
-- Sizes: the product of the sizes of a matrix and the place of a cell wrap at 2^64, as in the code. A
-- matrix of given sizes and cells (IsMatrix) is one whose product of sizes does not, as that of every
-- matrix whose cells are stored.
--
-- Not modelled: the text output (write_string), logging and profiling, which compute nothing; the
-- reading of a payload that is no flexbuffers document, which the code does without verifying it,
-- where the read is undefined and `get_root` of the model is some value; the random numbers, which
-- come from a generator of the standard library; the static matrices and vectors (templates on the
-- sizes) and the buffers; the main loop of a simulation, its configuration and the loading of its
-- layers from libraries; the constructors of a network with random parameters; asio, whose calls
-- show as said above; and extern/, which holds copies of other libraries. The ids of events are
-- taken not to be negative. Allocation by the standard library does not fail in the model, and but
-- for the channels each operation runs alone: threads are left out, but for what each receives from
-- the other.
pub mod Prelude
pub mod Binomial
pub mod Arena
pub mod Graph
pub mod Real
pub mod Vector
pub mod Matrix
pub mod Ref
pub mod Channel
pub mod Flexbuffer
pub mod Message
pub mod Session
pub mod Wire
pub mod Layer
pub mod Node
pub mod Handshake
pub mod Control
pub mod Simulation
pub mod Events
pub mod Neural
