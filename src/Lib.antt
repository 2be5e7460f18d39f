-- ===== src/Lib.antt =====
-- A model of the Go code of agents.net, which lets a sandboxed program reach the network only
-- through a boundary that applies a policy.
--
-- The parts and how they interact. Inside the sandbox, sdk/pkg/tun2connect ends every flow of
-- the guest. Its resolver (dns.go) invents an address for each name that the guest asks for,
-- answers the guest's DNS queries with it, and takes the address back to the name when the
-- guest dials it. The engine (engine.go) admits flows, and for each the forwarder
-- (forwarder.go) asks a client of the boundary (connect.go, connect_h2.go) for a tunnel to
-- that name: a byte stream for TCP, and for UDP a stream of capsules (capsule.go). The
-- boundary, sdk/cmd/connect-proxy, reads the head of a connection or a request of an HTTP/2
-- session (main.go), decides by its policy (policy.go) which addresses it may dial for the
-- name or address asked for, and pumps the datagrams of the capsules. The other way round,
-- the launcher sdk/cmd/tun2connect joins ingress streams to pinned ports of the sandbox
-- (run.go).
--
-- Which file models which part:
-- - Base and its children: tests on numbers, lists, byte strings, decimal numerals, errors.
-- - Net: JoinHostPort and SplitHostPort of package net, and Netip: the values of package
--   net/netip. An address is the number of its 32 or 128 bits and a zone; a bit length of a
--   prefix fits its address.
-- - Capsule: sdk/pkg/tun2connect/capsule.go, with append_varint for appendVarint, read_varint
--   for readVarint, write_datagram for WriteDatagram and read_datagram for ReadDatagram, and
--   pump_upstream for the goroutine of pumpUDP of sdk/cmd/connect-proxy/main.go. A reader
--   works on the bytes that a stream still delivers and on the error that it ends with.
-- - Dns: sdk/pkg/tun2connect/dns.go, with resolve, and reverse_lookup for Reverse; Dns.Query:
--   its HandleQuery and ttlSeconds. The maps
--   are functions, and a call takes the state and returns the new one. The lock makes each
--   call one step, so a run is a list of calls.
-- - Policy: sdk/cmd/connect-proxy/policy.go. Policy holds the data, ports and transports;
--   Policy.Names normalizeName, Policy.Ranges publicAddress and specialPurpose, Policy.Load
--   addRule and loadDescriptor, and Policy.Authorize selectRule and authorize. An error is a
--   value without the text that it quotes; a verdict has the reason as a constructor.
-- - Boundary: connectUpstream and dialAuthorized of sdk/cmd/connect-proxy/main.go, with the
--   audit records and refusals that they write as a list of events. A connection is the
--   address that it leads to; a panic on a connection that is nil is `none`.
-- - Boundary.Front: the handlers of the same file behind the parsed head, with connect_target
--   for connectTarget, masque_target for masqueTarget and serve_head for the switch of serve.
--   Header fields are the lists of their values. Boundary.H2: serveH2. Boundary.Heads: the
--   reader with a limit, readHead and the whole of serve. Boundary.Listener: the budget of
--   serveListener; Boundary.Idle: idleWatch. Boundary.Outcome: what both front ends may answer.
-- - Client: sdk/pkg/tun2connect/connect.go, with dial_tcp and dial_udp, final_response for
--   readFinalResponse, and Client.Field: ProxyStatus and ProxyStatusReason. What became of a
--   connection is a value of Opened. Client.H2: connect_h2.go, where the cached session is the state.
-- - Engine: sdk/pkg/tun2connect/engine.go. A goroutine is an element of the list of live
--   workers; Step has the arrivals, the outcomes of a worker and the three parts of Close, and
--   Reach is any sequence of steps. Forwarder: targetHost, DialTCP and DialUDP of forwarder.go;
--   Forwarder.Relay: the loops of its RelayUDP and ServeDNS.
-- - Ingress: sdk/cmd/tun2connect/run.go, with ingress_target for ingressTarget, serve_ingress
--   for the handler of serveIngress, and parse_pinned_ports for parsePinnedPorts.
-- - Namespace: serveUDP of sdk/pkg/netnsproxy/proxy_linux.go, with receive for a round of its
--   loop and Step for what its goroutines do. The map of flows is a list.
-- - Firewall: redirectRules of sdk/pkg/netnsproxy/rules_linux.go, the expressions of its rules as
--   data; Firewall.Kernel: what the rules rely on of nftables. Namespace.Routes: installRoutes of
--   routes_linux.go. Namespace.Setup: New and Close of proxy_linux.go, with new_proxy for New.
-- - Qemu: readFrame and writeFrame of sdk/pkg/qemuproxy/proxy.go, on the bytes of the socket, and
--   Qemu.Run: the two loops of its Run. Command: parseVSOCK and boundaryDialer of
--   sdk/cmd/tun2connect/main.go; Command.Child: runChild of run.go, on a list of happenings.
-- - Examples: runs on concrete input, a module for each part.
--
-- Parameters. A Platform has what the policy takes from outside: the text forms of addresses
-- and prefixes, the mapping of international names, and the Unicode tables behind package
-- strings. The JSON decoder is an argument of load_descriptor, the resolver one of authorize;
-- `none` is its error. A World has these and the dialling of package net, Http the checks of
-- package httpguts and the parser of request targets of package url, Parser the readers of
-- package textproto, Messages the parser and builder of package dnsmessage. A Transport is a
-- connection of the HTTP/1.1 client with the reader and writer of package http, RequestWriter
-- what that writer sends of a CONNECT request, and H2Transport packages tls and http2. The
-- network stack is the environment of the engine, and delivers requests at any time. Nftables
-- has the effect that each expression is documented to have on a packet, and the translation
-- that conntrack keeps for a connection, since a chain of type nat sees its first packet only.
-- Netlink has what additions and deletions do to a table; each of them may fail. An Outside has
-- the answers that New gets, and `room` is how many writes to a connection succeed.
--
-- Bounds and fuel. read_datagram, pump_upstream, download and inbound run on one more unit of
-- fuel than the stream has bytes. Each round takes a byte at least, so this is enough.
-- read_fields has one more than the head has bytes, and a line takes a byte at least. The loop
-- over interim responses runs on the number that it may still skip. Machine integers keep their
-- wrap-around where the code can reach it: the 64-bit shift of readVarint, the byte and word
-- conversions of appendVarint, the counter of connections, the ports and the index of rules.
--
-- Not modelled: the relays of byte streams; the set-up of the network stack and of devices,
-- flags, options of sockets and capabilities, which are made of calls of the system; locks,
-- deadlines and cancellation; the demonstration programs under scenarios.
pub mod Base
pub mod Boundary
pub mod Capsule
pub mod Client
pub mod Command
pub mod Dns
pub mod Engine
pub mod Examples
pub mod Firewall
pub mod Forwarder
pub mod Ingress
pub mod Namespace
pub mod Net
pub mod Netip
pub mod Policy
pub mod Qemu
