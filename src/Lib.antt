-- ===== src/Lib.antt =====
-- lluma: credits, blind tokens and the broker. A client buys credits at the issuer, has the issuer
-- sign tokens blindly, and spends each token at the broker, which forwards the sealed request to the
-- host that the client chose. The host signs a usage receipt and earns a credit for it. A relay and
-- a gateway stand between the client and the broker, so that neither of the two sees both the
-- client's address and the request; a host that cannot be reached keeps a tunnel to the broker.
--
-- Parts, and where they are modelled:
-- - Common: lists, results, 64-bit and 32-bit saturating arithmetic, bitwise operators on bytes,
--   and association lists.
-- - Core: crates/lluma-core/src/wire.rs and proto.rs, the messages and their `validate`.
-- - Crypto: crates/lluma-crypto/src/account.rs (Account, Domains, Pow, Keystore), tokens.rs (Tokens),
--   e2e.rs (E2e) and ohttp.rs (Ohttp).
-- - Issuer: crates/lluma-issuer/src, a module for each file: Error, Ledger, SpentSet, Idem, Client,
--   and Service for service.rs and keys.rs.
-- - Broker: crates/lluma-broker/src. Config is config.rs and error.rs; Store, Ledger, Spent,
--   Counters, Receipts, Trial, Snapshot and Tunnel are the files of these names; Registry and
--   Address are registry.rs; Redeem and Exec are `exec` of service.rs, and Service its other
--   handlers. Handshake is the opening of a tunnel socket, tunnel.rs.
--   Run puts every operation that writes the store into one step function.
-- - Net: crates/lluma-net/src. Framing is the request in Binary HTTP, Agent the client's exchange
--   through relay and gateway, Sources the bootstrap documents.
-- - Gateway and Relay: crates/lluma-gateway/src and crates/lluma-relay/src, with the relay's rate
--   limit in Relay.Rate.
-- - Host: crates/lluma-host/src. OpenAi is the call of the model, Serving the answer to a sealed
--   request, Registering the admission at the broker, Tunnel the host's end of the tunnel.
-- - Client: crates/lluma-client/src. Verify, Calls, Batches and Acquire are the purchase of tokens,
--   Snapshots the registry, Answers the reading of a sealed answer.
-- - Keygen: crates/lluma-keygen/src/bin/lluma-bootstrap.rs, the tool that signs a bootstrap document.
-- - Desktop: apps/lluma-desktop/src-tauri/src. Wallet is client.rs, the unspent tokens and what spends
--   them; Account is account.rs.
-- - Examples: concrete instances of all parameters, and runs.
--
-- How they interact: the issuer uses its ledger and its spent set through the records
-- Issuer.Ledger.CreditLedger and Issuer.SpentSet.SpentSet, which are the traits with their
-- contracts; the structures in memory and the broker's durable ones both fill them. The wallet uses
-- the client library through the record Desktop.Wallet.Network.
--
-- Conventions. A function that changes state takes it and returns it. A `[u8; 32]` is the number
-- that its bytes write, a `Vec<u8>` the list of its bytes. Time is an argument. An error is a value
-- of Result; a handler answers with a status and a code.
--
-- Parameters, for code that is not in the repository: Crypto.Primitives (Ed25519, BLAKE3, postcard),
-- Crypto.Tokens.BlindRsa (blind-rsa-signatures), Crypto.Hpke (hpke), Crypto.Ohttp.Oblivious (ohttp),
-- Net.Framing.Bhttp (bhttp), Crypto.Vault (argon2, XChaCha20-Poly1305, bip39), Broker.Db.Redb (redb),
-- Broker.Address.Parsers (URL and IP parsers), Gateway.Origin (the gateway's HTTP client and its URLs),
-- Desktop.Wallet.Files (a file), Relay.F64 (the arithmetic of f64, with the laws of IEEE 754 that are
-- used), and records for serde_json and for the servers that are called. Each redb transaction runs
-- under a fault of its own, which decides what fails; a transaction commits whole or not at all, and
-- redb admits one writer at a time, so a history of the store is a sequence of steps. `exec` and
-- `heartbeat` read in a transaction of their own before they write; the store that this read sees is an
-- argument, since others may write in between.
--
-- Bounds. Loops are structural, but for `pow_solve` and the two that solve a proof of work,
-- `trial_register` of the client and `register` of the host: their search has no bound in the source,
-- so it runs on fuel, and more fuel than a nonce that is good is enough. Counters saturate
-- at 64 bits, the progress of admission at 32; the slots of a socket, its request ids and the
-- generations of sockets wrap at 64 bits, as fetch_sub and fetch_add do.
--
-- Not modelled: routers and listeners, logging, the key file, the writer task with the pings and the
-- deadlines of a socket, the runtimes that the host installs and recommends, the catalogue of models,
-- key generation and the parsing of flags on the command line, the binaries, the rest of the desktop
-- application, and the web application.
pub mod Broker
pub mod Client
pub mod Common
pub mod Core
pub mod Crypto
pub mod Desktop
pub mod Examples
pub mod Gateway
pub mod Host
pub mod Issuer
pub mod Keygen
pub mod Net
pub mod Relay
