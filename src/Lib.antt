-- ===== src/Lib.antt =====
-- The simulator of TCP and UDP feeds in src/tcp_sim. As a sender it reads the records of a
-- file and sends them, paced by a scheduler, to the clients of a TCP or UDP transport; as a
-- receiver it splits what a transport reads into records and writes them to a rotating file.
-- The modules here model the parts that carry this behaviour, one for each part of the
-- program, and the files below a module prove its properties.
--
-- Framer             src/tcp_sim/engine/framer.py: class Framer, from a byte stream to records.
-- FileReader         src/tcp_sim/engine/file_reader.py: class FileReader, the rows of a file.
-- Scheduler          src/tcp_sim/engine/scheduler.py: class SendScheduler, the lines to send.
-- Connections        src/tcp_sim/transport/connection_manager.py: class ConnectionManager, the
--                    queues of the clients of the TCP sender.
-- Sink               src/tcp_sim/engine/sink_writer.py: class SinkWriter. Sink/Config has its
--                    settings and events, Sink/Files the files and their rotation, Sink/Drain
--                    its background task.
-- TcpServerReceiver  src/tcp_sim/transport/tcp_server_receiver.py: class TcpServerReceiver.
-- Receiver           src/tcp_sim/engine/receiver.py: class ReceiverEngine, which joins a receiver
--                    transport and the sink. It takes any transport with the operations of
--                    TransportLike; TcpServerReceiver/Counts gives the one of the TCP server.
-- Simulator          src/tcp_sim/engine/simulator.py: class SimulatorEngine, over the scheduler.
-- Controller         src/tcp_sim/gui/controller.py: class SimulatorController, over the transports,
--                    the simulator engine, and the receiver engine. Controller/Transports and
--                    Controller/Receivers build the transports, Controller/Loading reads the
--                    records, Controller/Starting, Controller/Commands and Controller/Reception have its commands,
--                    and Controller/Rounds has the task of its engine.
-- Log                src/tcp_sim/logging/json_logger.py: the parser of levels, and
--                    src/tcp_sim/gui/log_panel.py: the filter of the log.
-- Timestamp          src/tcp_sim/engine/timestamp.py: the rewriting of timestamps.
-- Config             src/tcp_sim/config/config.py: the schema, its migrations, and the file.
-- Backoff            src/tcp_sim/transport/base.py: class ReconnectBackoff.
-- Recipients         src/tcp_sim/transport/udp_server_sender.py: class UdpServerSender.
-- TcpServerSender    src/tcp_sim/transport/tcp_server_sender.py: class TcpServerSender, over the
--                    connection manager.
-- UdpClientSender    src/tcp_sim/transport/udp_client_sender.py: class UdpClientSender.
-- TcpClientSender    src/tcp_sim/transport/tcp_client_sender.py: class TcpClientSender.
-- TcpClientReceiver  src/tcp_sim/transport/tcp_client_receiver.py: class TcpClientReceiver, over
--                    the framer and the backoff.
-- UdpServerReceiver  src/tcp_sim/transport/udp_server_receiver.py: class UdpServerReceiver.
-- UdpClientReceiver  src/tcp_sim/transport/udp_client_receiver.py: class UdpClientReceiver.
-- Prelude            what these share: tests, results, lists, association lists.
--
-- A method is a function from the state of its object, a record with the fields of the class,
-- to the next state, with a result or an exception of type Result where it returns or raises
-- one. A coroutine is cut at its waits: each function is what runs between two of them, and
-- what other tasks do meanwhile is a list of such steps. The callbacks of an object are the
-- events it adds to its log, and the engine hears the new part of that log.
--
-- Bytes are lists of natural numbers, and Python's int is the native natural number where the
-- code keeps it from being negative. The loop of the framer runs on fuel, one more than the
-- bytes in its buffer, and each separator it finds leaves fewer of them; the rounds of the
-- scheduler's automatic mode follow a list, one entry for each wait. The other loops follow
-- their lists. Rates and seconds, which are floats in the code, are counted in a unit of which
-- they are whole multiples.
--
-- Sockets, TLS, the csv module, the clock, the file system, JSON and base64 are not modelled:
-- what they answer is an argument, and the disk of the sink does not fail. The controller runs
-- each command to its end before the next, and the start of its engine includes the first
-- round of the task of the engine, so the interleavings of its coroutines are not modelled,
-- nor are its reports of counters and events. The thread of the file reader, the handlers of
-- the log and the widgets of the graphical interface are not part of the development.
pub mod Prelude
pub mod Framer
pub mod FileReader
pub mod Scheduler
pub mod Connections
pub mod Sink
pub mod TcpServerReceiver
pub mod Receiver
pub mod Backoff
pub mod Recipients
pub mod TcpServerSender
pub mod UdpServerReceiver
pub mod UdpClientReceiver
pub mod TcpClientReceiver
pub mod TcpClientSender
pub mod Config
pub mod Simulator
pub mod UdpClientSender
pub mod Controller
pub mod Log
pub mod Timestamp
