-- ===== src/Lib.antt =====
-- The multiplayer game R-Type: the server's match and room logic and its transports, the protocols,
-- and the client with its screens, settings, lobby and match.
--
-- The program. A server keeps rooms. Clients reach it over TCP (lobby: rooms, joining, starting,
-- chat) and over UDP (inputs, and the state of the match). `ServerManager`
-- (Src/Server/ServerManager.cpp) owns the room table, both servers, the game loop and a shell;
-- `Game` (Src/Server/Game.cpp) is one room's match; `UDPServer` (Src/Network/UDPServer.cpp) moves
-- packets between a socket and two ring buffers with three threads;
-- Include/Network/Protocole/ProtocoleUDP.hpp holds the packed structs of the wire. On the client
-- `ClientManager` (Src/Client/ClientManager.cpp) runs the screens over the menus of `Renderer`, the
-- settings of `ConfigManager` and the lobby of `TCPClient`, and a match as `RTypeClient`
-- (Src/Client/RTypeClient.cpp), which predicts the own player and reads the packets of the server.
--
-- Which module models what:
--   Common          shared names, tests and lists over native numbers, `Int` (C++ `int`), `Machine` (float
--                   and double arithmetic as a parameter), `Floats` (the literals, as bit patterns)
--   RingBuffer      Include/Network/RingBuffer.hpp; `Queue` is the specification
--   Protocol.Udp    Include/Network/Protocole/ProtocoleUDP.hpp, and the casts and the loop of
--                   Src/Client/RTypeClient.cpp that read it
--   Network         Include/Network/Packet.hpp, addresses, and one call of `queueMessage` as a value
--   Game            Include/Server/Game.hpp and Src/Server/Game.cpp: `Types` the state, `Players` the roster,
--                   `Shots` input and spawning (`Input`, `Steering` and `Statistics` its laws), `Entities` motion and synchronisation, `Collision`, `Boss`,
--                   `Update` the whole of `Game::update`, `Moves` runs of a match, and `Ranges` the ranges
--                   of its fields and of what it sends
--   UdpServer       Include/Network/UDP/UDPServer.hpp and Src/Network/UDPServer.cpp
--   Protocol.Tcp    Include/Network/Protocole/ProtocoleTCP.hpp
--   TcpServer       Include/Network/TCP/TCPServer.hpp, Include/Network/ITCPHandler.hpp and
--                   Src/Network/TCPServer.cpp: `Handler` the interface to the rooms, `Threads` a client's
--                   thread, `System` all of them, `Tables` and `Agreement` their invariant; `Delivery`, `Talk`
--                   and `Conversation` follow the chat from the threads to the clients
--   ConfigManager   Include/Client/ConfigManager.hpp and Src/Client/ConfigManager.cpp; `Numbers` is `std::stoi`
--                   and the printing of an `int`
--   Renderer        Include/Client/Renderer.hpp and Src/Client/Renderer.cpp: `Types` the members and the calls
--                   of raylib, `Menus` what the menus decide, `Scene` the whole of `draw`, with the loops of
--                   `Players` and `Entities`, `Overlay` the chat and the screens of the end, `KeyNames`;
--                   `Parallax` is Src/Client/ParallaxLayer.cpp; `Username` the way of the user name to the
--                   server, and `Bank`, `Bursts`, `Sprites`, `Chat`, `Labels` and `Background` what is drawn
--   Clock           Include/Clock.hpp
--   Patterns        Include/Client/Patterns.hpp
--   NetworkUtils    Include/Server/Utils.hpp
--   RTypeClient     Include/Client/RTypeClient.hpp, Include/Client/GameState.hpp, Src/Client/RTypeClient.cpp and
--                   `receiveMessage` of Include/Network/UDP/UDPClient.hpp: `Types` the state, `Keys` the input,
--                   `Loss` the packet loss, `Packets` the whole of `update`, `Frame` the whole of `tick`;
--                   `Wire`, `Mirror` and `Resync` relate it to what the server sends, `Handled` and `Prediction` to
--                   `Game::handlePlayerInput`, `Served` to the rooms behind `onMessageReceived`, `Events` and
--                   `Window` to the whole history, `Replica` to runs of the server's match; `Status`, `Session`,
--                   `Runs` and `Match` are about its statuses, and `Show` is what `tick` draws
--   TcpClient       Include/Network/TCP/TCPClient.hpp and Src/Network/TCPClient.cpp: `Socket` the interface of the
--                   stream, `Requests` creating and joining a room, `Lobby` the other requests, `Chat`, and
--                   `Connection` how the connection is made, checked and ended; `Framing` and `Answers` are about
--                   what comes out of the stream
--   UdpClient       Include/Network/UDP/UDPClient.hpp and Src/Network/UDPClient.cpp
--   ClientManager   Include/Client/ClientManager.hpp and Src/Client/ClientManager.cpp: `Types` the state, `Rooms`
--                   the screen of the rooms, `Frames` a round of the loop
--   ServerManager   Include/Server/ServerManager.hpp and Src/Server/ServerManager.cpp; `Shell` the commands,
--                   `Lobby` its side of the interface to the TCP server; `Rooms` is about the room table, `Inputs`
--                   about the way of an input to its match
--
-- How code becomes definitions. A method that changes an object takes and returns its state; a
-- method that sends returns the calls of `queueMessage` that it makes, in order, and `ServerManager`
-- queues them on the UDP server that it owns. A thread of the TCP server is a phase, and each round
-- of its loops is a step. A loop over a vector is recursion on its list, or on the number of
-- elements to go where the body writes to the vector. A mutex that a method holds throughout makes
-- the method one step; `ServerManager::onMessageReceived` takes no lock, and is modelled as one step
-- all the same. Integers wrap where the type is unsigned. A lookup that throws gives nothing. The
-- loop over the chat packets has fuel, one round more than the bytes that have arrived, of which each
-- round takes one at least, and gives nothing when it runs out; the fuel of the loops of `recvAll` and
-- `sendAll` is the number of bytes still wanted, of which each round moves one at least; `getLobbyState`
-- bounds its loop itself, by ten.
--
-- Parameters. `Machine` is the arithmetic of `float` and `double`, `sin`, the conversions, and what an
-- uninitialised field holds; a theorem that needs a law of it, such as the 32 bits of a `float` or its
-- order, takes the law as a hypothesis. The clock and `rand` are read from a `Frame`.
-- The socket gives an `Arrival` and takes a `Packet`; the reads of a TCP thread give an `Input`.
-- Extraction from a `stringstream` is a parameter of the shell.
-- The stream of asio is the interface `Socket`, with the law `Delivers` for bytes that have arrived;
-- keys, mouse, window and `CheckCollisionRecs` of raylib, and whether the UDP socket of a new match opens,
-- are read from the frames of the client. What is
-- drawn is the list of the calls of raylib; the times and sizes that are read on the way stand in a `Sight`,
-- and the loading of a picture is an argument.
-- `recv` and `send` of the system are the interface `Sock`, the sockets of the two clients, where they are
-- opened and closed, `Port` and `UdpSocket`.
--
-- Not modelled: sound, the drawing of the menus (`Menus` has what they decide), the set-up and tear-down of
-- the sockets of the servers, an exception of `available` or of `non_blocking` in a
-- request, log output, the entry points and the platform glue,
-- and data races.
pub mod Common
pub mod RingBuffer
pub mod Protocol
pub mod Network
pub mod Game
pub mod UdpServer
pub mod ClientManager
pub mod ConfigManager
pub mod Renderer
pub mod RTypeClient
pub mod TcpClient
pub mod TcpServer
pub mod ServerManager
pub mod NetworkUtils
pub mod Patterns
pub mod Clock
pub mod UdpClient
