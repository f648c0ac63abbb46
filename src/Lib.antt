-- ===== src/Lib.antt =====
-- tunator: a tunnel that carries the packets of a tun device over a web socket.
--
-- The program. A server (tuna_server.hpp) takes the messages of web sockets. A JSON message of the
-- action init describes addresses and routes (if_addrs.hpp), for which it makes and starts a
-- TunDevice (tun_device.hpp): a tun device (tun_device.cpp), set up by commands (system_cmd.hpp)
-- that if_addrs_linux.cpp or if_addrs_macos.cpp writes, and two packet queues, fromTun and toTun. A
-- message of a packet (ws_packet.hpp) is pushed to toTun, from where a thread writes it to the
-- device; another reads the device into fromTun, from where packets go to the web socket. A queue
-- (packet_queue.hpp) is a pool of packets over one block of memory (packet_buffer.hpp, packet.hpp),
-- a ring of pointers to the packets in flight, which is boost's, and statistics
-- (packet_statistic.hpp). One thread pushes to a queue and one pops from it.
-- The routes of the host (iproute.hpp) are read and written in the text forms of the tools of Linux
-- (linux_ip_route.hpp) and macOS (apple_ip_route.hpp). A device reports itself as JSON, in a message
-- (message.hpp). The program (main.cpp) reads its options and starts one server (tunator.hpp,
-- tunator.cpp).
--
-- The files.
--   Prelude, Prelude/*        names and lemmas that all files share; `size_t` as a number below
--                             2 ^ 64, with the wrap written out where the code can reach it
--   Text, Text/*              text as a list of bytes; decimal output and std::stoi
--   Packet/Statistic          PacketStatistic: the counters and collect
--   Packet/Buffer             Packet, PacketBuffer, alloc and free; a Packet * is an index
--   Packet/Buffer/Bytes       reads and writes of its memory
--   Packet/Ring               the interface of boost::lockfree::queue: its operations, and its laws
--   Packet/Queue              PacketQueue: push, pop and the wait between the rounds
--   Packet/Queue/*            the invariant, the view as a queue of byte strings, whole calls, and
--                             histories of rounds by the two sides
--   Packet/Queue/Steps        push and pop as two threads that interrupt each other at any shared
--                             access; Steps/Alone is what one does that is not interrupted
--   Route/Library             the ipaddress library and boost's tokenizer: operations and laws
--   Route/IpRoute             IPRoute
--   Route/Linux, Route/Apple  LinuxIpRoute and AppleIpRoute: serialize, command, parse
--   Device/Driver             tun_device.cpp: tun_header on both systems, tun_write and tun_read
--   Device/Alloc              tun_device.cpp: tun_alloc on both systems
--   Device/Command            SystemCmd: arg, env, dump, and the ok of run
--   Device/Process            SystemCmd::run with register_read and handleSigChild
--   Device/Process/Files      its descriptors: Pipe, FileDescriptor, and what launch and run close
--   Device/Process/Routes     LinuxIpRoute::read, by two commands
--   Device/Json               the interface of the JSON library
--   Device/IfAddrs            RouteVia, IfAddrs: asJson, fromJson
--   Device/Setup              IfAddrs::asCommands on both systems
--   Device/Life               TunDevice: start, stop and join
--   Device/Threads            the actions of a device's threads on its queues: reading, writing,
--                             sending, echo
--   Device/Rounds             rounds of the threads on the device itself
--   Device/Report             the JSON of statistics, devices and messages, written and read;
--                             PacketStatistic::asString
--   Server                    WsPacket, processPacket, HashStringToInt, the choice of a handler
--   Server/Paths              a packet's way from a message to the device and from device to device
--   Server/Devices            the map from connections to devices: actionInit, disconnect
--   Server/Sessions           the same with the devices themselves, and the messages of sendTun
--   Server/Messages           whole messages: onmessage, processJson, actionPong
--   Server/World              everything together: messages, closings and the rounds of the threads of
--                             all devices, in any order
--   Start                     TunaTor: args, start, stop, the destructor, and main
--   */Tests                   concrete libraries, and runs at concrete inputs
--
-- Parameters. The ring, the ipaddress library, the tokenizer, the JSON library, the open tun device
-- and the system calls that open one are records of operations, with the documented laws in further
-- records; the tests fill them with concrete code. What other threads do while a call sleeps or waits
-- is an argument of the call, as are the clocks, what getopt_long hands out, what select and errno say,
-- what pipe answers, and what the loop of asio hands to a running command: blocks of its output and
-- the exits of its child.
--
-- Bounds. A loop over a list is recursion on the list. The loop of push is recursion on fuel
-- block_wait / 10 + 3: its first round sleeps 0 ms and each later one 10 ms or more. to_decimal has
-- 20 digits of fuel, which a number of 64 bits does not exceed. A call of pop waits without a
-- bound, so its waits are a list, and it returns when one of them times out.
--
-- Interleavings. In Packet/Queue a round of push or of pop is one step. Packet/Queue/Steps takes the
-- same rounds apart into their shared accesses: each test and each write of the flag `used`, the
-- call of the action, the write of the size, the push to and the pop from the ring, and the
-- collection of the statistics. There one producer and one consumer take turns in any order; memory
-- is sequentially consistent, and a counter is counted with the access that it stands next to.
--
-- Not modelled. PacketQueue::getBlockTimeval, the timeout handed to select and setsockopt. Commands
-- that do not return: those that TunDevice::start runs are taken to return, in their order, though
-- Device/Process/Killed shows that one killed by a signal does not. Logging, sockets, and the child's side of SystemCmd::launch with its calls of fork,
-- dup2 and execve. AppleIpRoute::read, which does not compile. The waits of waitGraceFull and of
-- the threads. In Server/Sessions a device stays as a handler left it until the next one; in
-- Server/World the threads of the devices run in between, a round at a time.
pub mod Prelude
pub mod Text
pub mod Packet
pub mod Route
pub mod Device
pub mod Server
pub mod Start
