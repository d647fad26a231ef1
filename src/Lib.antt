-- ===== src/Lib.antt =====
-- openRTDDS: a real-time DDS/RTPS library of bounded, allocation-free components.
--
-- The parts and how they interact. The core keeps fixed-capacity storage: the KEEP_LAST history
-- and the object pool. The RTPS layer runs the reliability protocol between one writer and one
-- reader: the writer keeps each sample that it sends until the reader's ACKNACK covers it, its
-- attempts are used up, or its repair window has passed; the reader keeps a bounded window of
-- numbers and answers a HEARTBEAT with the numbers it is missing. Both put their effects in an
-- action buffer that the caller gives them, and the caller carries them out. The serialization layer
-- writes and reads CDR payloads in a buffer of fixed size. The RMW foundation keeps the nodes and
-- guard conditions of a context in tables of fixed size; the graph cache keeps the nodes and endpoints
-- of this participant and those that other participants announce. The messages between
-- the two sides are built by the codecs, found in a datagram by the router and parsed again. The
-- static DDS entities put these together: a DataWriter serializes a sample, builds its datagram and
-- records it, a DataReader parses the datagram, decodes the sample and hands its number to the
-- reader's state.
--
-- Prelude: shared names, tests, list and bit lemmas, machine arithmetic.
-- Core/Limits: include/openrtdds/core/runtime_limits.hpp, RuntimeLimits::validate.
-- Core/History: include/openrtdds/core/keep_last_history.hpp. `assign` is BoundedSample::assign;
--   push, pop_oldest, oldest, newest and clear are KeepLastHistory's. `advance` is the end of push.
-- Core/Pool: include/openrtdds/core/static_pool.hpp. A slot holds the live object or none, so that
--   construction and destruction are the content of a slot.
-- Rtps/Types: include/openrtdds/rtps/types.hpp.
-- Rtps/SequenceSet: SequenceNumberSet of include/openrtdds/rtps/reliability_messages.hpp, with
--   reset, set (`set_bit`) and test (`test_bit`) of src/rtps/reliability_messages.cpp.
-- Rtps/ControlCount: control_count_is_newer and next_control_count of
--   src/rtps/reliability_state.cpp.
-- Rtps/Messages: the HEARTBEAT and ACKNACK structures.
-- Rtps/Actions: ReliabilityAction and ReliabilityActionBuffer of
--   include/openrtdds/rtps/reliability_state.hpp.
-- Rtps/Sent and Rtps/Writer: ReliableWriter of the same file. Each operation is a list of tests
--   (`write_error`, `acknack_error`), which `guarded` turns into an early return, and the part that
--   changes the state: `append_record`, `apply_loop` and `expire_loop`, which work on the whole array
--   as the source does, with the index that is read and the index that is written.
-- Rtps/Reader: ReliableReader of the same file. `slide` is the loop that moves the window.
-- Rtps/Trace: any order of DATA and HEARTBEAT at one reader, as a step relation.
-- Rtps/Wire: the byte helpers of src/rtps. Wire/Begins is what the writers leave, Wire/Holds what the
--   readers make of it.
-- Rtps/Router: find_submessage of src/rtps/message_router.cpp. Router/Context has its types and what
--   the INFO submessages set; `step` is a round of its loop; Carried describes the same search over a
--   list of submessages.
-- Rtps/Codec and Rtps/Codec/Parsing: ReliabilityMessageBuilder and the parsers of
--   src/rtps/reliability_messages.cpp.
-- Rtps/DataMessage: DataMessageBuilder and parse_data_message of src/rtps/data_message.cpp.
-- Rtps/Participants: DiscoveredParticipantTable of include/openrtdds/rtps/spdp.hpp.
-- Rtps/Exchange: the reader's reply, taken in by the writer. Rtps/Recovery: the round of repair that
--   follows, where `repairs` and `receive_all` are what the callers do with the writer's actions.
-- Dds/Entities, Dds/DataWriter, Dds/DataReader: include/openrtdds/dds/static_entities.hpp and
--   src/dds/static_entities.cpp. `serialized_by`, `send_sample`, `store_sample` and `record_sample` are
--   DataWriter::write after each of its early returns; `take_view`, `deliver_sample` and
--   `accept_sample` are DataReader::take. `build_heartbeat_datagram` is DataWriter::build_heartbeat.
-- Dds/Delivery: a sample from write to take. Dds/Resend: the samples that are sent again, whose
--   records `log` compares with what was written under each number. Dds/Control: a HEARTBEAT from one
--   entity to the other. Dds/Reply: the ACKNACK datagram that answers it. Dds/Repair: the whole round,
--   on datagrams.
-- Serialization/Cdr, Serialization/Integral, Serialization/Writer, Serialization/Reader: CdrWriter and
--   CdrReader of include/openrtdds/serialization/cdr.hpp and src/serialization/cdr.cpp, operation by
--   operation. `finish_…` and `…_at` are what an operation does after its position is known.
-- Serialization/Written, Items, RoundTrip: what is written is read again. Serialization/Errors and
--   ReadErrors: what a failed call leaves.
-- Rmw/Context, Rmw/Operations: AdapterContext of include/openrtdds/rmw/foundation.hpp. `free_slot` is
--   the search in create_node and create_guard_condition. Rmw/Runs has any sequence of calls.
-- Rmw/Graph: GraphCache of include/openrtdds/rmw/graph_cache.hpp and src/rmw/graph_cache.cpp. Records
--   has its structures, Tables the loops over its arrays; Cache has the operations on local records,
--   snapshot and remove_remote_participant; Received and Remote are apply_remote, the reading of a
--   message and what is done with it; Sent is serialize_local. Runs has any sequence of calls.
--
-- Bounds and fuel. Unsigned integers are natural numbers with the remainder written out, an int32_t
-- is its bit pattern. A byte order is one of the two enumerators of ByteOrder, so that the tests for
-- another value of its type do not fail in the model. Array sizes are parameters, below 2 ^ 64 where
-- an index is counted in a size_t. Loops with a counter run over the rounds that are left. `slide`
-- has one round of fuel more than the window has bits, which is enough: a round clears a flag, and
-- the theorem on `on_data` says that the loop has stopped at a number that is not flagged. `walk`
-- has as many rounds as the datagram has bytes, and one more: a round moves by the four bytes of a
-- submessage's header at least.
--
-- The type support of a topic is code of an application: a record of its identifier and its two
-- operations. Where a theorem needs that it reads what it writes, this is the hypothesis RoundTrips.
--
-- A pointer to payload bytes in an action is the index of the record that it points into. A pointer
-- that an earlier call put into the same buffer is not followed through a later call.
--
-- Not modelled: the messages of discovery and its endpoint tables; the RMW adapter and the UDP
-- transport, which call code that is not in the repository; texts for errors, the version and the
-- tests.
pub mod Prelude
pub mod Core
pub mod Rtps
pub mod Serialization
pub mod Rmw
pub mod Dds
