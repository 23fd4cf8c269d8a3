-- ===== src/Lib.antt =====
-- This library models the core of lapin, an AMQP 0-9-1 client: what it does with frames on their way
-- out and with contents on their way in, between the program's calls and the socket, and how channels
-- and connections open, fail, recover and close.
--
-- The parts and their files; paths are from the repository's root.
-- - Base: numbers, lists and maps that the other files share.
-- - Frame: frames, promises and expected replies of src/frames.rs, and src/connection_step.rs.
-- - Frames: the queues behind the lock of src/frames.rs (struct Inner): push, push_frames, retry,
--   pop. Frames/Order and Frames/Publish are about the order in which frames go out;
--   Frames/Replies has the lookups of expected replies, Frames/Discard has dropping and poisoning.
-- - Payload: send_method_frame_with_body of src/channel.rs, which splits a payload into frames and
--   gives them to push_frames.
-- - Receiver: src/channel_receiver_state.rs, the contents that a channel is about to receive.
-- - Message, BasicGet, Consumer, ConsumerStatus, Returned: messages under construction and where they
--   end (src/message.rs, src/basic_get_delivery.rs, src/consumer.rs, src/consumer_status.rs,
--   src/returned_messages.rs).
-- - Content: the handlers of content headers and bodies of src/channel.rs, which ask the receiver
--   state whose content it is and hand it to one of those.
-- - Consumers: src/consumers.rs, the consumers of a channel, and the stream of src/consumer.rs.
-- - Acker: src/acker.rs, src/killswitch.rs and src/error_holder.rs.
-- - Sequence: src/id_sequence.rs, which numbers channels and publishes.
-- - Confirms: src/acknowledgement.rs, the publisher confirms, on top of Sequence and Returned.
-- - ChannelStatus: src/channel_status.rs and src/channel_recovery_context.rs, with the kill switches
--   that deliveries get and the notifiers that errors carry, on top of Receiver.
-- - Recovery: init_recovery and update_recovery of src/channel.rs, over ChannelStatus, Frames and
--   Confirms.
-- - Error: src/error.rs, with the state of a channel that errors carry.
-- - Topology: src/registry.rs and src/topology.rs, what a channel has declared and bound;
--   its queues are in Topology/Queues.
-- - Command: the commands and futures of src/internal_rpc.rs and the events of src/events.rs.
-- - Channel: src/channel.rs, a channel as a whole, over ChannelStatus, Confirms, Consumers, Content,
--   Frames and Topology: how it closes and fails. Its children have the handlers of the methods that
--   it receives: Channel/Basic (messages and consumers), Channel/Acks, Channel/Declared,
--   Channel/Lifecycle and Channel/Handshake.
-- - Requests: src/generated/channel.rs, the methods that a channel sends and, by receive_method in
--   Requests/Received, those that it receives. Requests has what they share, Requests/Basic,
--   Requests/Publish, Requests/Exchange, Requests/Queue, Requests/Lifecycle and Requests/Handshake the
--   methods by their class, Requests/Answered which request an answer goes to.
-- - ChannelIds: the search for a free channel id of src/channels.rs, on top of Sequence.
-- - Channels: src/channels.rs, the channels of a connection: Channels/Routed takes an arriving frame to
--   its channel and makes new channels, Channels/Recovering begins a recovery over all of them.
-- - Rpc: src/internal_rpc.rs, the task (run) that carries out the commands of channels, ackers and
--   handles on Channels, and sends itself further ones.
-- - SocketState and IoLoop: src/socket_state.rs and src/io_loop.rs, the thread between the socket and the
--   channels: the accounting of written frames, the setup, the conditions and the critical errors
--   (IoLoop/Control), the serialization of frames (IoLoop/Serialize), and over an environment that
--   answers for the socket the writes (IoLoop/Stream), the reads and the frames that are parsed
--   (IoLoop/Stream/Reads), a turn of the loop (IoLoop/Stream/Run) and the connections one after the
--   other (IoLoop/Stream/Start).
-- - Connection: src/connection.rs, the handle of a connection and how it starts (Connection/Opening), with
--   src/connection_closer.rs, src/channel_closer.rs, src/consumer_canceler.rs, src/secret_update.rs and
--   src/thread.rs.
-- - ConnectionStatus: src/connection_status.rs.
-- - Notifier: src/listener.rs and src/notifier.rs, and the atomic steps of a poll and of a notification,
--   in any order (Notifier/Woken).
-- - Tuning: src/configuration.rs and tune_connection_configuration of src/channel.rs.
-- - Buffer: src/buffer.rs, the circular buffer of the socket: its indices (Buffer/Inv), the bytes that are
--   written and read (Buffer/Bytes), and its uses as a queue of bytes (Buffer/Run).
-- - Parsing: src/parsing.rs, the view of the buffer that the parsers read, and how far they have come.
-- - Heartbeat: src/heartbeat.rs, with the readings of the clock as arguments.
-- - Promise: the cell of src/promise.rs.
-- - Witnesses: the theorems at concrete values.
--
-- State and operations. A struct behind a lock is a record, and a method that holds the lock
-- throughout is a function from the record before to the record after: locks make such calls steps of
-- one sequence, and the theorems over lists of operations quantify over every such sequence. What a
-- method does to other objects (it completes a promise, spawns a call of a delegate, sends a command
-- to the RPC task) is a list of effects in order. Promises, notifiers, kill switches and delegates
-- that are shared are numbers. The frames, the status and the configuration of a connection are shared
-- by its channels: Channels has them once and lends them to a channel for each operation.
--
-- What stands outside. Errors and message properties that the code only passes on are type
-- parameters. The functions of the crate amq_protocol that tell header frames and a frame's channel
-- are parameters (Frame.FrameApi) with what the code relies on as laws, and so is its constant
-- FRAME_MIN_SIZE, the class and number of a method, and the AMQP error of each kind of violation
-- (Channel.Protocol, Requests.Received.Context); whether a dropped confirm has settled is a parameter of Returned.drain. A HashMap is
-- an association list; where the source iterates over one, the order is that of the list here and
-- open in the source.
--
-- Bounds and fuel. Integers are natural numbers. The id sequences keep the wrap-around of their type,
-- whose size is an argument; the sizes of the buffer and of contents are sums that stay in range.
-- clear_connection_steps runs on fuel, and one more than the expected replies of channel 0 is enough;
-- the search for a channel id (create_id) runs on fuel, and one more than the bound on ids is enough;
-- serialize runs on fuel, and one more than the pending frames is enough; handle_frames runs on fuel, and
-- one more than the bytes of the buffer is enough; the other loops of the I/O thread end when the
-- socket does, and run on fuel that is given;
-- the chunks of a payload run on the payload's length. A panic is a result none.
--
-- Not modelled: wakers and executors, and so what a future does once the RPC task runs it, among it the
-- requests that start_recovery awaits in turn; the thread of the I/O loop, its waker and the backoffs'
-- delays; authentication, whose answers are given; how connector wires the parts of a connection, its
-- builder and its properties; the options of methods, and the methods that the crate amq_protocol
-- builds of them; the texts of errors, logging and formatting. The crates amq_protocol, backon and
-- event_listener are parameters with the laws that the code relies on.
pub mod Base
pub mod Sequence
pub mod Frame
pub mod Frames
pub mod Receiver
pub mod Acker
pub mod Message
pub mod Returned
pub mod Confirms
pub mod Parsing
pub mod Notifier
pub mod Payload
pub mod ConsumerStatus
pub mod Consumer
pub mod BasicGet
pub mod Content
pub mod Witnesses
pub mod Buffer
pub mod Channels
pub mod ChannelStatus
pub mod Tuning
pub mod Connection
pub mod ConnectionStatus
pub mod Consumers
pub mod Recovery
pub mod Heartbeat
pub mod Promise
pub mod SocketState
pub mod IoLoop
pub mod Topology
pub mod ChannelIds
pub mod Error
pub mod Command
pub mod Channel
pub mod Requests
pub mod Rpc
