-- ===== src/Lib.antt =====
-- The services of this repository: binance_orders follows the user data streams of Binance accounts,
-- stores what happens in a database and reports it to Telegram groups; binance_prices follows prices.
--
-- The program's parts and how they interact. The table of hosts names the accounts. The monitor thread
-- reads it every ten seconds, compares it with what it saw last, and appends each change to a shared
-- queue. The launcher thread takes the changes from the queue and starts, regroups or stops one stream
-- for each host. A stream asks the REST interface for a listen key, opens a WebSocket with it, and
-- appends what it receives to a second shared queue, from which a saver thread sends Telegram messages
-- and writes rows. An HTTP server takes uploads of hosts. In binance_prices one stream of market data
-- fills a queue of its own, from which a saver keeps the last prices.
--
-- The files, and the code that each is about (paths from the root of the repository):
--   Base                 lists, options, texts as lists of bytes, association lists, integers
--   Programs             binance_orders/main.cpp: what is started, and the failures before it;
--                        Programs/Follow joins it with the monitor and the launcher, and
--                        Programs/Uploads the upload of hosts with the launcher
--   Records              binance_orders/include/{orders_info,host_info,request_handler}.hpp
--   Containers           common/containers.hpp: waitable_container_t and locked_set_t
--   Hosts                binance_orders/src/background_threads.cpp and get_available_hosts of
--                        database_connector.cpp: the monitor in Hosts, the launcher in Hosts/Launcher
--   Stream               binance_orders/src/user_data_stream.cpp, lines 20 to 368: the state and the
--                        operations that the handlers run; the handlers and runs in Stream/Machine
--   Reports              user_data_stream.cpp, lines 304 to 479: messages into reports
--   Json, Time           common/json_utils.hpp and timet_to_string of common/json_utils.cpp;
--                        Time/Calendar is the calendar, by the lengths of the months
--   Telegram             binance_orders/src/tg_message_sender.cpp; Telegram/Payload and
--                        Telegram/Routing are about telegram_process.cpp
--   ChatUpdate           binance_orders/src/chat_update.cpp
--   ListenKey            binance_orders/src/listen_key_keepalive.cpp
--   Saver                persistent_orders_saver of background_threads.cpp; Saver/Streams joins it with
--                        the stream of a host, Saver/Messages with the senders of messages
--   Session              binance_orders/src/session.cpp: routes and handlers; Session/Socket is about
--                        lines 57 to 185, the reading and writing of the socket
--   Server               binance_orders/src/server.cpp: the sessions, each a step relation of its own
--   Database             binance_orders/src/database_connector.cpp: the texts of the statements;
--                        Database/Cache is about the table of the chats, Database/Connection about the
--                        configuration and the connection. Database/Sql reads SQL, for the theorems
--   Url                  binance_orders/src/session.cpp, lines 311 to 386
--   Prices               binance_prices/src/market_data_stream.cpp, lines 247 to 294, and
--                        src/websock_launcher.cpp; Prices/Stream is about the other lines of the first
--   Crypto               common/crypto.cpp: base64_encode and base64_decode
-- The files called Examples run the theorems on concrete input; Json/Arena, Url/Search and Database/Cache/Table
-- are concrete libraries for them.
--
-- State and operations. A class is a record of its members, and a method is a function from the record
-- to the record under the method's name. Optional members that are only present or absent are truth
-- values. An asynchronous operation stands in the list `pending` of the object (the message sender has
-- one at a time), and its handler is the case of `complete` for that operation: the environment
-- chooses which pending operation ends next, and how. Exceptions and undefined behaviour are `none`.
-- `std::size_t` and `unsigned int` keep their wrap-around (2 ^ 64 and 2 ^ 32).
--
-- Bounds and fuel. The inner loop of base64_encode runs on fuel, one round for each collected bit: a
-- round takes six. The loop of split_string_view has the length of the text plus one as its fuel, and
-- every round passes a separator; running out is `none`, and the theorem on it gives a result for
-- every text. All other loops are structural.
--
-- Third-party code is a parameter: nlohmann::json is the record JsonLibrary, string_view::find and
-- replace_all are functions with the laws of their documentation, the verbs of HTTP are any type, and so
-- are the prices with their `std::stod`. The table of the chats is the record CacheTable: what an INSERT
-- and an UPDATE do to it by its key and its unique index, with names compared byte by byte.
--
-- The calls of OTL, `rlogon` and `direct_exec`, are truth-valued functions: they throw or not.
-- The command line, the answers of the operating system and the content of the configuration file are the
-- record Environment of Programs.
--
-- Not modelled: the database itself, HMAC, the reading of files and of the command line, and what nothing
-- calls: some helpers of json_utils.cpp, and fields_alloc.hpp. Time passes only
-- as timers that end and streams that expire. The handlers of one object run one after another, as in
-- one thread of the event loop; those of different sessions and of the server interleave in any order.
-- The group of a stream that is running is changed by the launcher (Hosts/Launcher) and is fixed in the
-- runs of Stream/Machine. A read whose stream a close frame has destroyed ends as aborted.
pub mod Base
pub mod Crypto
pub mod Url
pub mod Programs
pub mod Records
pub mod Json
pub mod Time
pub mod Reports
pub mod Stream
pub mod Containers
pub mod Database
pub mod Hosts
pub mod Telegram
pub mod ChatUpdate
pub mod Saver
pub mod Session
pub mod Server
pub mod ListenKey
pub mod Prices
