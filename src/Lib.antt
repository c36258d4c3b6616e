-- ===== src/Lib.antt =====
-- Verification of THeroLogicServer, the logic server of a hero game: its network library, and
-- parts of the game.
--
-- A client or another server sends packets over TCP. A packet (GameLib/PacketBase.h) has a header of 9
-- bytes - its length, "BY", a version, a sub-version, a command, a check code - and typed fields. The
-- sender builds it, encrypts it (GameLib/EncryptDecrypt.cpp) and puts it in the connection's ring of
-- bytes (GameLib/LoopBuffer.cpp), from which GameLib/TcpHandler.cpp feeds the socket. The receiver's
-- GameLib/PacketParser.cpp cuts packets out of the stream; GameLib/SocketHandler.cpp decrypts each and
-- gives it to the server's `ProcessPacket`.
--
-- The files:
--   Base            lists, memory blocks, machine integers, Boolean tests
--   LoopBuffer      GameLib/LoopBuffer.cpp: `put`, `get`, `peek`, `erase` and the counts are the methods
--                   of `CLoopBuffer`; pointers are offsets in the block
--   TcpHandler      GameLib/TcpHandler.cpp: `send`, `handle_output`; the socket is the list of its answers
--   Packet          GameLib/PacketBase.h: `read`, `write` and the header; Packet/Input and Packet/Output
--                   are `NETInputPacket` and `NETOutputPacket`, with `build_package` for `BuildPackage`
--   EncryptDecrypt  GameLib/EncryptDecrypt.cpp: `encrypt_buffer`, `decrypt_buffer`, and the two tables
--   PacketParser    GameLib/PacketParser.cpp: `parse_packet`, `parse_proxy_packet`, one function per round
--                   of their loop; `OnPacketComplete` is an argument
--   TcpServer       GameLib/TcpServer.cpp: `add_socket`, `remove_socket`, `handle_close`, and `dispatch` for
--                   the body of `_StartUpLin`'s loop; what a handler does is an argument
--   SocketServer    GameLib/SocketServer.cpp: the map of connections, `get_use_id`
--   SplitString     GameLib/split_string.cpp: `split_string`
--   TaskSystem      Server/TaskSystem.cpp: `count_task` and `sync_task` are the two function objects, the
--                   rest the methods of `CFightTask`; the database is the list of calls made to it
--   Player          Server/Player.cpp: Player/Level has `calc_level` for `CPlayer::CalcLevel`, Player/Pow
--                   `set_pow` and `get_pow` for the resources, Player/Check and Player/Timers
--                   `process_mechine_require`, `process_mechine_write_db` and `process_on_timer_out`
--   GameServer      Server/GameServer.cpp: the data in GameServer, the lookups in GameServer/Lookups, what
--                   requests are made of in GameServer/Actions, and one function for each request in
--                   GameServer/Shop (buying, selling, enlarging), GameServer/Mechines (levels) and
--                   GameServer/Collecting (what mechines collect and produce); GameServer/Balance is about
--                   the balance of a player under all of them, GameServer/Sample is data for tests
--   PlayerMgr       Server/PlayerMgr.cpp: the map of players, and `send_msg_to_user`; the database calls are
--                   the stubs of Server/DBOperator.cpp
--   MemPool         GameLib/mempool.cpp: `allocate`, `deallocate`, `refill` and `chunk_alloc`; `malloc` is the
--                   list of its results
--   SocketHandler   GameLib/SocketHandler.cpp and `handle_read` of GameLib/TcpHandler.cpp: `on_parser`,
--                   `on_packet_complete`, `send_packet`, `handle_read`; `ProcessPacket` is an argument
--
-- State is passed explicitly. A memory access outside its block, or with a negative size, is a fault,
-- the result `none`. An `int` is its bit pattern, below 2 ^ 32, and its sums wrap; a `size_t` of the
-- memory pool wraps at 2 ^ 64. The loop of the
-- parser runs on fuel, one more than there are bytes, which is enough since each round reads a byte at
-- least. So do the loops of `SplitString` (one more than the string's length), of `GetUseID` (one more
-- than there are connections), of `CalcLevel` (the width of its range), and of `chunk_alloc` (2, for the
-- sizes that `refill` calls it with); that the fuel is enough is part of their theorems. The other loops are recursions on their data.
--
-- A request of the game is an action on a `World`: the player, the balance in the database's row, the
-- answers that the database will give, and the calls and packets so far. It goes on, returns early, or
-- crashes (a division that traps, the last entry of an empty table). A call of the database takes the
-- next answer, which is any: a failed statement, one that changed no row, or a success with the numbers
-- that are read from it. The numbers of the packet and the time are arguments, and a request reads the
-- clock once. Fields that the code never sets are arguments too.
--
-- Not modelled: the socket, epoll and timer calls (the environment), logging, the database, redis and
-- XML code (calls of libraries), GameLib/jsoncpp, GameLib/tinyxml and GameLib/MD5 (copies of other
-- projects), and, so far, the timers of GameLib, login, friends, messages, the synthesis of props and the
-- dispatch of Server/GameServer.cpp, and the heroes of Server/herosystem.
pub mod Base
pub mod LoopBuffer
pub mod TcpHandler
pub mod Packet
pub mod EncryptDecrypt
pub mod PacketParser
pub mod SocketHandler
pub mod TcpServer
pub mod SocketServer
pub mod SplitString
pub mod TaskSystem
pub mod Player
pub mod GameServer
pub mod MemPool
pub mod PlayerMgr
