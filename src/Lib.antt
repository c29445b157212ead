-- ===== src/Lib.antt =====
-- LinkForge: a multipath tunnel that stripes IP packets over several UDP paths.
--
-- Protocol (internal/protocol): the wire format.
--   Bytes: byte strings, slices and the big-endian words of encoding/binary;
--     Bytes/Slices has the laws of slices of appended bytes.
--   Header, Header/RoundTrip: Header, MarshalBinary, ParseHeader (protocol.go).
--   Payload: MarshalPlain, PlainPayload, MarshalData, ParseData.
--   Ip: IPVersion, SourceIP, DestinationIP (ip.go). Ip/Datagrams describes a packet by its parts.
--   Hello, Welcome: the handshake messages and sign, over a record of an HMAC with 32-byte sums, since
--     crypto/hmac is outside the repository; Hello/Layout, RoundTrip and Authentic have the proofs.
--     A time.Time is its nanoseconds since 1970.
--   Aead: Seal, Open and packetNonce over a record of an AEAD cipher's two operations and laws, since
--     crypto/cipher is outside the repository.
--   Replay, Replay/Refinement, Replay/Once: ReplayWindow; an uint64 of bits is a number, and
--     Prelude/Bits has the laws of its bits.
--   Keys: hkdfSHA256 and NewAEAD, over the HMAC and a function for AES-GCM. The loop runs on a fuel of
--     one round for each byte, where a round gives 32.
-- Reorder (internal/reorder): the buffer that restores the packet order.
--   Drain, Lowest: the loops of drain and forceDrain; the draining loop runs on the number of waiting
--     packets as its fuel, which is enough since each round removes one.
--   Invariant, Calls, Trace: the invariant, what each call delivers, and whole runs. Contents: a
--     buffer delivers what it was given.
--   Packets are any values, and each time.Now() is an argument; instants are nanoseconds.
-- Engine (internal/engine/server.go): the relay.
--   State: Server, serverCredential, serverSession and serverPath, without loggers, metrics other than
--     ActiveSessions, sockets, locks and the scheduler. A session object is a reference into a heap,
--     and the three indexes of the server hold references.
--   Registry: accepts, markClosing, detachSessionLocked, terminateClientSession,
--     terminateSessionIfCurrent and getOrCreateSession. The random session ids are a list of draws,
--     each of which may fail; a list that ends before an id is free is an answer of its own.
--     Registry/Invariant has the invariant IsRelay, Removal, Termination, Closing and Creation its
--     upkeep, Joining and Joined the handshake.
--   Credentials: AuthorizeClient and RevokeClient, on the results of parsing the configuration.
--     The credentials change and the old session ends in one step.
--   Paths: addPath, expirePaths and a tick of janitorLoop, which ranges over the ids that the map has
--     when it begins. Paths/Expiry has its invariant, Paths/Silence what it leaves; Registry/Update
--     is for changed session objects.
--   Packets: handleEncrypted, send and removePath; Handshake: handleHello and pathForNonce; Events: the
--     bodies of receiveLoop and reorderLoop, and runs of the relay. What is written to the socket and
--     the TUN device is returned; whether a write fails, what is drawn and the clock are arguments.
--     Packets/Handled, Handshake/Kept and Events/Kept keep the table, Packets/Genuine and Events/Genuine
--     are about spoofing.
--   Startup: NewServer for a validated configuration; Startup/Validated shows that it succeeds.
-- Config (internal/config/config.go): the settings and their defaults. A weight is its hundredths.
--   Host: what Go's net, netip, encoding and os packages answer, as a record, with ParseKey and
--     ParseClientID (internal/protocol).
--   Checks, ClientChecks, ServerChecks: Path, Client, Management and Server Validate, resolveKey and
--     Secrets. ServerChecks/Distinct and Bounds have what an accepted configuration is like.
-- Control (internal/controlplane): enrollment of devices.
--   Bucket: bbolt's buckets as a record of operations and laws; a value stands for its JSON.
--   Secret: GenerateKey, GenerateClientID, encryptPSK and decryptPSK over a record of text encodings.
--   Pool: the search of allocateAddress; an IPv4 address is a number. Its fuel is the size of the pool,
--     which has fewer addresses to try.
--   Store (store.go): the transactions, which give an error or the buckets they commit; Store/Users
--     has CreateActivation and Enroll. Store/Enrolled and Rotated say what a transaction that succeeds
--     has done, Devices, Addresses and Invariant keep the devices valid, Once is about activation
--     codes, Active about ActiveCredentials, Opening about OpenStore. Store/Commands has series of
--     operations.
--   Limiter: rateLimiter.Allow. Service (service.go): the handlers, as functions on the buckets, the
--     rate windows and the state of the relay, which the two hooks change.
--
-- Not modelled: of the relay, tunLoop with nextPath, statistics, metrics and the start of its loops;
-- the client, the scheduler, metrics and the host's network; of the control plane, the HTTP transport,
-- JSON and the client (client.go); of the configuration, reading its files and finding the interfaces of
-- the host.
--
-- Texts are bytes: strings.TrimSpace cuts ASCII white space only (Prelude/Text), where Go cuts that of
-- Unicode too, and strings.ToLower changes ASCII letters only. A weight is compared in hundredths, where
-- the source compares a float64. The text of a store's error stands for itself in an answer.
--
-- Each mutex-protected call is one step. An unsigned word is a number with its wrap-around written
-- out; a map is an association list (Prelude/Map), so a range over it goes in list order.
pub mod Config
pub mod Control
pub mod Engine
pub mod Prelude
pub mod Protocol
pub mod Reorder
