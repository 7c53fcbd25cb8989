-- ===== src/Lib.antt =====
-- Verification of the core of the arveil client, the Rust crate core/crates/arveil-core.
--
-- The program is an end-to-end encrypted messenger. Each device holds keys; a root key of its
-- identity signs a credential for each device, and a chain of manifests that say which devices are
-- active. Signed objects are deterministic CBOR. A message is encrypted once by MLS, and then sealed
-- in one padded envelope for each receiving device; the sealed bytes wait in an outbox until the
-- relay takes them. The receiving device records a delivery before it processes it, and acknowledges
-- it afterwards. Frames to the relay are cut into Noise payloads and put together again in one
-- bounded buffer. In a group every member checks by itself who may commit.
--
-- Files, and the sources they model (paths below core/crates/arveil-core/src):
--   Cbor         signed.rs: `sort_maps` and `canonical`, over a writer as a parameter
--   Signed       signed.rs: `signing_input`, `sign`, `verify`, `peek` and their values
--   Identity     identity/mod.rs: credentials, the manifest chain, claimed devices
--   Endpoints    channel/endpoints.rs: the signed list of a realm's endpoints
--   Envelope     envelope.rs: buckets, the padding loop, sealing and opening
--   Channel      channel/mod.rs: sealing and opening frames; the transport of channel/noise.rs
--   Codec        channel/codec.rs: the frame objects, their encoding and padding
--   Fragment     channel/fragment.rs, and two bounds of channel/noise.rs
--   Policy       mls/policy.rs: the rule of the lowest active leaf
--   Outbox       delivery.rs: the outbox, the states of its envelopes, the notification counts
--   Inbox        delivery.rs: the inbox, acknowledgements, mailbox cursors
--   Events       delivery.rs: local events, their pages, read markers, unread counts
--   Attachments  attachment_store.rs: file transfers and their chunks
--   Files        attachments.rs: descriptors, file names, the sealing of a file
--   Cards        card_store.rs: contact cards, their uses and withdrawals
--   Requests     card_store.rs: the requests of people who used a card
--   Invitations  invitation_store.rs: invitations sent and received, their cleanup
--   Client       client.rs: the errors of the client and the text of an identity in them
--   Contacts     client.rs: contacts, pinned roots, safety numbers
--   Pairing      client.rs: pairing sessions, the phases of a grant, cancellation
--   Codes        pairing.rs: the code of a new device, the number that both screens show
--   Chain        client.rs: the manifests a profile accepts, the devices they revoke
--   Revocations  device_store.rs: the journal of revocations
--   Packages     client.rs: the key packages that a device publishes
--   Realm        client.rs: the realm, its endpoint list and preferred route, the enrollment;
--                invitation_store.rs: the release of a rejected enrollment
--   Sql          the SQL statements of these stores over tables as lists; Sql/Tables has the
--                tables with a primary key and what each statement does to the row of a key
--   Base         shared types and lemmas: `Result` and `?`, byte strings, lists
--   Sample       a small platform on which the examples of the signed objects run
-- Each part has its definitions in the file of its name, its theorems in the files below it, and its
-- examples in Tests. Identity and Endpoints stand on Signed, Signed and Envelope on Cbor, the tables on
-- Sql.
--
-- Correspondence. Functions keep the names of the source; `open` of envelope.rs is `open_sealed`,
-- the methods of the channel and of its transport begin with `channel_` and `transport_`, and a
-- method is a function that takes the receiver last or first, as a state, and returns it. Errors are
-- values of `Result`, `?` is the bind, an early return of an error is `refuse_if`. Bytes are lists
-- of numbers, a String that only travels as text is its UTF-8 bytes. The text of a serialization
-- error is kept as a String. Times, sequences of SQL and cursors, all i64 in the source, are natural
-- numbers. The manifest sequence of 64 bits wraps around, as a release build adds; a pad length is
-- computed on words of 64 bits. A table is the list of its rows in the order of their rowids, which
-- a rowid table keeps, so `ORDER BY id` is the order of the list; a new rowid is one above the
-- maximum. A sequence of a manifest, which client.rs keeps as an i64, is ordered as a signed number
-- there. Names that a function looks into (file names, safety numbers) are lists of code points. A
-- primary key is a test on the rows, and a write that breaks it is an error where the source does
-- not upsert. A unit of work that fails leaves its tables as they were; other failures of SQLite are
-- not raised. The clock and the randomness are arguments. A panic on a stored key that is no key is
-- a failure of Realm. Locks only serialize the calls, so that each call is one step. Columns that no
-- modelled statement reads are left out.
--
-- Parameters. What is not in the repository is a parameter: ciborium and serde (records `Cbor` and
-- `Serde`, law `ReadsBack`), ed25519-dalek and SHA-256 (`Platform`, `PlatformLaws`), hpke_rs
-- (`Hpke`, `HpkeLaws`; sealing draws from a randomness argument), aes-gcm (`FileCrypto`,
-- `FileCryptoLaws`), hex (`Hex`, `HexLaws`), mls-rs (`Mls`, `MlsEngine`, `MlsEngineLaws`), snow
-- (`Noise`, `NoiseLaws`). `PaddingLaws` and `PadLaws` state the length of a CBOR byte string of RFC
-- 8949. Writing a value into a vector does not fail, which the source expects as well. Each law has
-- an instance in the examples.
--
-- Fuel. `chunks` has as much fuel as the slice has bytes, and each chunk takes at least one. The
-- loop of `pad` has the source's four rounds as its fuel, where the source gives up as well. The
-- loop of `encode_padded` has no bound in the source; three rounds are enough.
--
-- Not modelled: key generation, which only draws random bytes; the handshake of channel/noise.rs; of
-- client.rs the mailboxes, the kits, the creation, authorization and revocation of own devices,
-- conversations, the import of archives and uploads; archive_store.rs and recovery.rs; the messages
-- of pairing.rs; the schema migrations; the other crates (application, command line, the Flutter
-- bridge), the relay in Go and the Flutter client.
pub mod Attachments
pub mod Base
pub mod Cards
pub mod Client
pub mod Codes
pub mod Contacts
pub mod Cbor
pub mod Chain
pub mod Channel
pub mod Codec
pub mod Realm
pub mod Requests
pub mod Revocations
pub mod Signed
pub mod Identity
pub mod Endpoints
pub mod Envelope
pub mod Sql
pub mod Inbox
pub mod Invitations
pub mod Outbox
pub mod Packages
pub mod Pairing
pub mod Policy
pub mod Events
pub mod Files
pub mod Fragment
mod Sample
