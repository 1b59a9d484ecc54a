-- ===== src/Lib.antt =====
-- A verification library of behind, a forwarding DNS server in C++.
--
-- The server reads queries from UDP and TCP clients, answers what it knows (hosts, filters, the
-- cache), forwards the rest to upstream servers over UDP or TCP, checks what comes back, stores it
-- and replies.
--
-- Parts:
-- - Base: names of the libraries, Boolean tests, lists and byte strings. A std::string is a list of
--   bytes; the functions of <cctype> are those of the "C" locale.
-- - Misc: the text functions of src/misc.cpp.
-- - Name: domain names on the wire, Behind::NameMap, write_name and decode_name of src/Behind.cpp.
--   A pointer into the packet is its offset. The reader's loop runs on a fuel of 384 rounds: each
--   round takes one of 128 jumps or two of the 254 bytes that a name may have.
-- - Message: the structs Header, Question, Record and Message of src/Behind.cpp.
-- - Packet: parse_dns_message (Parse) and make_dns_packet with write_dns_answer_rr (Make) of
--   src/Behind.cpp. The other files of Packet say where the pieces of a message sit in a packet
--   (Pieces, Records, Sections), and go from what is written to what is read. The loops that check
--   the frames of RDATA run on a fuel of one round for each byte; each round takes one at least.
-- - Cache: dns::Cache of src/Behind.cpp. An iterator is the number of a list node, the clock is an
--   argument, and the sizes of the C++ structs are a parameter. The loop that makes room runs on a
--   fuel of one round for each entry, and each round erases one.
-- - DomainFilter: src/DomainFilter.cpp, add_entry (Entry) and find; std::regex is a parameter, its
--   constructor and its match.
-- - Udp: the queries in flight over UDP of src/Behind.cpp: is_udp_query_active, finish_udp_query,
--   finish_udp_transaction, forward_udp, process_query_udp from the choice of the forwarders on,
--   allocate_txid and release_txid. The invariant (Valid) orders transactions by their ids, so the
--   theorems on questions require that the 32-bit counter does not wrap. A shared_ptr is the number of an object in a heap; an Attempt
--   carries what sockets, clock and random numbers bring.
-- - Clean: the states CLEAN_EXPIRED_UDP and CLEAN_ACTIVE_TXIDS of Behind::clean in src/Behind.cpp;
--   Steps has the queries over UDP as a state machine: questions, ends of queries and transactions
--   and cleanings, in any order, for one turn of the 32-bit counter of transactions: a question is
--   asked only while the counter does not wrap.
-- - Forwarder: choose_forwarder of src/Behind.cpp; the numbers it draws are a parameter.
-- - MinTtl: min_ttl_override_for and modify_received of src/Behind.cpp.
-- - Response: is_matching_response, is_cacheable_response, their UDP versions, set_edns0 and
--   client_edns_payload of src/Behind.cpp.
-- - ChaCha20: src/ChaCha20.cpp; the seed is an argument.
-- - Local: process_local_query and reply_from_cache of src/Behind.cpp (Query), with find_host,
--   parse_ptr_query_addr and find_host_name_by_addr. An unordered map is the list of its entries in
--   the order of its iteration; the hosts are as update_hosts_files left them.
-- - LineReader: src/LineReader.cpp, internal_getline and open, and getline (Include). The file system
--   is a parameter: realpath, and for a path what read(2) will bring, piece by piece. The loop of
--   getline runs on a fuel of 10001 turns: each turn but the last opens a file, and at most 10000 are
--   opened.
-- - ConfigParser: src/ConfigParser.cpp, over the lines that the reader brings; the function that takes
--   an assignment is a parameter.
--
-- The parts meet in Message and Name: Udp takes the question of a Message, Response compares a
-- Message with a query of Udp, Cache and MinTtl lower names with Misc, and DomainFilter checks
-- rules with Misc and splits names with Name. Local looks into the hosts, DomainFilter and Cache,
-- and its answers are Messages with the EDNS record of Response. LineReader trims lines with Misc
-- and finds comments as ConfigParser does.
--
-- Not modelled: TCP tasks with their part of Behind::clean, access control and rate limits, the
-- files of hosts, the option tables of main.cpp, logging and all input and output.
pub mod Base
pub mod Name
pub mod Packet
pub mod Misc
pub mod Message
pub mod Cache
pub mod DomainFilter
pub mod Udp
pub mod Forwarder
pub mod MinTtl
pub mod Response
pub mod Clean
pub mod LineReader
pub mod Local
pub mod ChaCha20
pub mod ConfigParser
