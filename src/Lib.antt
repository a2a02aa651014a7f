-- ===== src/Lib.antt =====
-- Verification library of NativeDNS, a local resolver that routes DNS queries by rules.
--
-- The program reads a query from a client, finds the rule that its name selects, and answers from a
-- cache, from an upstream server or with a response that it makes up. This library follows the parts
-- that decide what the program does, in the words of the source:
--
--   Model            NativeDNS.Core/include/nativedns/model.hpp: the configuration
--   Rules/Names      NativeDNS.Core/src/rules.cpp: normalize_ascii_name and its two callers
--   Rules/Unicode    decode_utf8, append_utf8, widen, narrow
--   Rules/Patterns   split_patterns
--   Rules/Match      host_matches, with the index variables as suffixes of the two texts
--   Rules/Options    NativeDNS.Core/src/config.cpp: runtime_options
--   Rules/Validate   validate
--   Rules/Select     match_rule
--   Rules/Evaluate   evaluate_rule, over the snapshot that it uses
--   Rules/Editor     ConfigEditor: an edit gives the next configuration or an error
--   Network/Interfaces NativeDNS.Core/src/network.cpp: find_interface, NetworkMonitor::refresh
--   Network/Endpoint NativeDNS.Core/src/network.cpp: parse_numeric_endpoint;
--                    NativeDNS.Core/src/dnscrypt.cpp: relay_endpoint, provider keys
--   Dns/Wire         NativeDNS.Core/src/dns_packet.cpp: words and compressed names
--   Dns/Query        parse_question, make_query
--   Dns/Response     synthetic_response and its callers, edns_request, fit_udp_response
--   Dns/Answer       parse_response
--   Dns/Ttl          clamp_dns_ttl, age_dns_response
--   Dns/Certificate  NativeDNS.Core/src/dnscrypt.cpp: skip_name, be16, be32
--   Service/Executor NativeDNS.Core/src/bounded_executor.hpp
--   Service/IpcWire  NativeDNS.Core/src/ipc_wire.cpp and the frame writer of
--                    NativeDNS.Core/src/platform/linux/ipc.cpp
--   Service/Pool     NativeDNS.Core/src/pool_limits.hpp
--   Router/Cache     NativeDNS.Core/src/router.cpp: exchange_cached, whose critical sections are
--                    functions of the tables; Router/Cache/Histories orders them in any way
--   Router/Group     exchange_group: the group, the order of the attempts, the health table
--   Router/Exchange  exchange_cached from its request to its result, over exchange_group
--   Router/Route     Router::route, with the exchange as a parameter
--   Config/Xml       NativeDNS.Core/src/config.cpp: escapes, entities and attribute values
--   Config/Parser    XmlParser
--   Config/Values    the values of attributes, lists in an attribute and metadata; the names of
--                    protocols, actions and types of NativeDNS.Core/src/rules.cpp and dns_packet.cpp
--   Examples         runs of the theorems at concrete inputs
--
-- A packet and a string are lists of bytes, a map an association list, a set the list of its
-- members. A function that throws returns a `Result` with the error's code; the message is left
-- out. An access past the end of a container, which C++ leaves undefined, is the value `fault`,
-- so that a theorem about `Safe` results says that no such access happens. Fields of w bits are
-- numbers; where the code narrows one, the remainder is written out.
--
-- Loops are recursion on the list that they walk or on fuel: `name` allows its own 128 hops,
-- `skip_name` its own 128 labels, `host_matches` a number of rounds that its correctness theorem shows
-- to be enough, the walk along aliases its own bound, and the search for fallback cycles one level for
-- each server and two more, since each level enters one more server. The loop that makes room in the
-- cache has one round for each entry and one more, since each round erases one; the collection of a
-- group has one level for each server and two more; the loops of the XML parser have a round for each
-- byte and one more. That these are enough is part of the theorems about them.
--
-- What stands outside the repository is a parameter: `inet_pton` of both families, the text of an
-- address, the random identifier of a query, the clock, `double` and `std::stable_sort`. So are the
-- transports, which are mostly calls of other libraries, and what the requests that run at the same
-- time make of a shared table. The parameters are arbitrary functions, but for the hypotheses that a
-- theorem names: a sort gives only what it was given, and an exchange gives bytes or throws.
--
-- Not modelled here: sockets, TLS and cryptography, the cancellation of requests and the table of
-- transports, the thread that watches the network, the mapping between XML nodes and the
-- configuration, logging, the desktop application and the platform layers.
pub mod Prelude
pub mod Model
pub mod Rules
pub mod Network
pub mod Dns
pub mod Service
pub mod Router
pub mod Config
pub mod Examples
