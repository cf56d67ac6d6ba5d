-- ===== src/Lib.antt =====
-- An MQTT 5 broker (Go), and the modules that defend it: the wire codec of broker/packets, the hooks of
-- broker/modules and of broker/hooks/auth, and what the broker keeps of a session.
--
-- How the parts interact: the server reads packets with the codec, and calls the hooks of every module
-- at fixed points (connection, publish, subscription, disconnect). A hook keeps its own state and
-- answers with an error, a changed packet or a verdict. A Go method is a function that takes the state
-- of its hook and returns the state afterwards; its error is a value. A method that is called from many
-- goroutines is one atomic step, as the counters and locks of the source make it, and theorems on runs
-- range over every sequence of such steps.
--
-- The files, with their sources from the repository's root:
--   Packets/Codes          broker/packets/codes.go
--   Packets/Codec          broker/packets/codec.go (decodeString is decode_string, and so on)
--   Packets/FixedHeader    broker/packets/fixedheader.go
--   Packets/Types, Packet  the constants and structs of broker/packets/packets.go, and below Packet its
--                          encoders, decoders and validators: Connect, Session (CONNACK, DISCONNECT,
--                          pings, AUTH), Publish, Acks, Subscribe, Unsubscribe, Copying (Packet.Copy);
--                          Body holds what they share (PublishEncode is publish_encode, and so on)
--   Packets/UserProperty,  the structs of broker/packets/properties.go
--     Properties
--   Properties/Keys, Copy, Encode, Decode  the rest of broker/packets/properties.go
--   Modules/Config         what the Init methods of the modules share
--   Modules/PropertyValidator  broker/modules/defense/property_validator.go
--   Modules/AuthDefense        broker/modules/defense/auth_defense.go; Lockout runs it under attachClient
--   Modules/PriorityMessaging  broker/modules/routing/priority_messaging.go
--   Modules/MessageIntegrity   broker/modules/security/message_integrity.go
--   Modules/WildcardTokens     broker/modules/security/wildcard_tokens.go; Chain has it among the hooks
--   Auth                   broker/hooks/auth/ledger.go (its users, rules and topic filters), and
--                          allow_all.go in AllowAll
--   Session/Aliases            the topic aliases of broker/topics.go
--   Session/Inflight           broker/inflight.go; Listing has GetAll and NextImmediate
--   Session/PacketIds          NextPacketID of broker/clients.go
--   Topics                 broker/topics.go: Levels (isolateParticle), Filters, Stores (the maps of
--                          subscriptions), Tree (the particles, set, seek and trim), Index (the
--                          operations of TopicsIndex), Scan (Subscribers) and Messages
--   Server                 broker/server.go, with what broker/clients.go does for it: Hooks (how
--                          broker/hooks.go calls the hooks in turn), State, Writing (WritePacket, Stop,
--                          DisconnectClient), Acks (buildAck, PUBACK to PUBCOMP), Delivery
--                          (publishToClient and what calls it), Publishing (processPublish),
--                          Subscribing, Wills, Handling (processPacket), Sessions (session takeover,
--                          resending and expiry), Connecting (ParseConnect, SendConnack), Attaching
--                          (attachClient and the read loop), Embedding (Publish, Subscribe and
--                          Unsubscribe of the inline client), Storing (the records of
--                          broker/hooks/storage/storage.go, and what the Badger and Bolt hooks put
--                          into them), Loading, Quotas (the handlers and the quotas)
-- Each module's Runs file holds tests and the theorems at concrete inputs. Common holds what the
-- modules share.
--
-- Choices. A byte and a Go string are numbers and lists of numbers; a word keeps its wrap-around where
-- the source can reach it (uint16 lengths, bytes of the header), and counters are unbounded. Time is a
-- number. encodeLength recurses on an accessibility proof, so it needs no fuel. The loop of
-- Properties.Decode has fuel for one round to each byte of the properties, and each round takes the
-- byte of a key. The loops of SubscribeDecode and UnsubscribeDecode have fuel for one round to each
-- byte of the packet, and a round takes at least one. A topic has at most one level more than it has
-- bytes, which bounds the rounds of the walks along it. The other loops are structural. NextPacketID
-- has fuel for three rounds more than there are ids, as it passes each id at most once. Maps are
-- association lists, visited in their order where Go's order is any.
--
-- The broker's state (Server/State) is a record: a heap of clients, since a client that publishes may be
-- one of those that the message goes to, the map of client ids, the index of topics, the counters, and a
-- log of what the hooks are told. A handler takes a state and returns an error, or none, and a state. The
-- hooks that give answers and the connection are parameters, which see the whole state; time stands still
-- within a handler. What a connection delivers is a list of packets and the error that ends it.
--
-- Not modelled: sockets, buffers and listeners, logging, configuration files, storage databases and
-- the clients and counters loaded from them, the $SYS topics, TLS and eBPF set-up and the client
-- programs, which are I/O or calls of libraries. Two handlers do not interleave within one step: each
-- runs to its end. A subscription of an inline client is kept without its handler, and a particle of
-- the tree without the pointer to its parent.
pub mod Common
pub mod Packets
pub mod Modules
pub mod Auth
pub mod Server
pub mod Session
pub mod Topics
