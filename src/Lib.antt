-- ===== src/Lib.antt =====
-- FlashMQ, an MQTT broker: the parts of its core that decide what a topic is, what a packet says,
-- which packet ids a session uses, who may read and write, and who gets a message.
--
-- `Topic` is utils.cpp: topics and filters are lists of bytes (`Base.Text`), split at slashes into
-- levels. `splitTopic` is the variant without SSE 4.2, and its limit, which the source reads from
-- the settings of the thread, is an argument. `Topic.Split`, `Topic.Filter` and `Topic.Share` set
-- it against the list of the levels of a text.
--
-- `VarInt` is variablebyteint.cpp and `Packet` the cursor of mqttpacket.cpp: the bytes of a packet
-- with a position, and the reads and writes at it, which throw. The decoder of the variable byte
-- integer has fuel for five bytes: its loop throws at the fifth, so that is enough.
--
-- `UsedIds` is usedids.cpp: a set of packet ids that is an array of up to eight entries and then
-- a bit set of 65536. A `uint64_t` of the bit set is a number below 2 ^ 64.
--
-- `QosData` is `Session::QoSData` of session.h and session.cpp with the methods of `Session` that
-- lock it; it uses `UsedIds`. `getNextPacketId` searches with fuel for 65536 rounds, which is one
-- round through all ids; what happens when none is free is among the results. A step relation
-- (`QosData.Flow`) stands for the calls that the rest of the server makes, in any order; each runs
-- under the lock. Of `sendAllPendingQosData` it has what is done for one queued publish (`resend`); the
-- walk through the queue and the sending are left out.
--
-- `Utf8` is `isValidUtf8Generic` of utils.h, round by round over its three locals; `Utf8.Encode`
-- describes the texts that it accepts without them.
--
-- `Parse` is the part of mqttpacket.cpp that parses whole packets, as calls that read at the position
-- and may throw: `Parse.Header` the constructor from bytes and `validateFirstByteLSB`,
-- `Parse.Properties` the `while` loop over MQTT 5 properties that seven of the parsers repeat, with
-- the `switch` as an argument, `Parse.Acks`, `Parse.Control`, `Parse.Publish`, `Parse.Connect` with
-- `Parse.Connect.Will`, and `Parse.ConnAck` the parsers of each type. Settings and what is read of
-- the client are arguments. The loops have one round of fuel more than the packet has bytes, which
-- is enough, since each round reads one at least. An exception is the reason code that it carries,
-- or its type. The properties that CONNECT leaves for the CONNACK are not kept.
--
-- `Framing` is `bufferToMqttPackets` of mqttpacket.cpp, with the circular buffer as the list of the
-- bytes in use. The loop over the length throws in its fifth round, so five are enough; each packet
-- takes two bytes at least out of the buffer, whose length is the fuel of the outer loop.
-- `Framing.Chunks` is about a stream that arrives in parts and `Framing.Wire` about one that
-- `readIntoBuf` wrote.
--
-- `Build` makes packets: `readIntoBuf` and the responses to QoS packets (`PubResponse` of types.cpp).
--
-- `QosQueue` is qospacketqueue.cpp: nodes with two weak pointers at addresses in a memory, which is a
-- function; an address is not used again. A weak pointer locks while the map, `head` or `tail` holds
-- its node. `QosQueue.Fifo` says when the list, the map and the byte count agree on a list of ids and
-- publishes, and `QosQueue.Spec` and `QosQueue.Expiry` are about the operations on it. What each call
-- of `now()` gives is an argument, and no two calls need to agree.
--
-- `Session` puts `QosData` and `QosQueue` together, as session.cpp does: queueing a publish under a
-- new id, clearing it when it is acknowledged or has expired, and the handlers of the acknowledgements
-- of mqttpacket.cpp, which return the response that the code writes. The theorems on it begin with
-- a session whose queued ids are in use (`Session.Drops.Agrees`); a session that was loaded from disk
-- has none of its ids in use, and is left out.
--
-- `Acl` is acltree.cpp: the tree of permissions and the search in it, for levels that `Topic` split.
-- An `std::unordered_map` is an association list (`Base.Dict`). Nodes are owned by their parents and
-- reached through them only, so the tree is a value.
--
-- `CirBuf` is cirbuf.cpp: the memory is a function from positions to bytes, and what `realloc` leaves
-- in new memory is an argument; it does not fail. Sizes are powers of two up to 2 ^ 31. The locals of
-- type `int` in `maxReadSize` and `maxWriteSize` are their 32 bits, compared as signed numbers. The loop
-- of `ensureFreeSpace` has fuel for 65 rounds, since its factor is 0 after 64; `CirBuf.Write` has what
-- it comes to for the one byte of `write(b)`.
--
-- `Shared` is sharedsubscribers.cpp with subscription.h: the members of a shared subscription and the
-- choice of the one that gets a message. A `std::weak_ptr<Session>` is a number, and which sessions
-- are alive is an argument. The `int` of the round robin is its 32 bits.
--
-- `Subscriptions` is the tree of subscriptionstore.cpp: subscribing, unsubscribing and publishing.
-- `getDeepestNode` with a function on the node that it returns is `at_deepest`, which makes the nodes
-- on the way, and `at_existing`, which gives up at a missing one; its two passes, first under the read
-- lock and then under the write lock, come to one. Publishing returns the receivers and the tree,
-- because the choice in a shared subscription moves its counter. `std::hash` is an argument.
--
-- `Base` holds the names, the lemmas and the arithmetic that these share, and `Tests` runs them.
--
-- Not modelled: retained messages, the publishing of wills, the clearing up of the tree, the handlers
-- of CONNECT, PUBLISH and SUBSCRIBE, the packets that the server makes other than the responses to QoS
-- packets, the configuration, and what is I/O, locking, TLS, logging or a plugin. The
-- assertions of the source are no part of a release build, and are left out.
pub mod Base
pub mod Topic
pub mod VarInt
pub mod Utf8
pub mod Parse
pub mod Build
pub mod Framing
pub mod Packet
pub mod UsedIds
pub mod QosData
pub mod QosQueue
pub mod Session
pub mod Acl
pub mod CirBuf
pub mod Shared
pub mod Subscriptions
mod Tests
