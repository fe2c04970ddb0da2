-- ===== src/Lib.antt =====
-- dauth proves control of an Ethereum account and exchanges that proof for permission tokens. A client
-- asks for a challenge, signs it with its wallet and redeems it for a sign-in token; with that token a
-- developer licence asks for a permission token for an asset, which is granted by the documents and the
-- records of the asset's owner. Both kinds of token are signed by the same RSA keys.
--
-- Base: the helpers on tests, lists, signed integers, texts, bits, time, errors and maps that all parts
-- share. Ethereum: go-ethereum (addresses, hex, hashes, recovery) and the chain, parameters of the model.
-- Env: internal/envx, the readers of the environment. Httpmw: internal/httpmw. Oidc: internal/oidc.
--
-- The sign-in surface:
--   Nonce             internal/siwe/nonce/nonce.go: Challenge, and Store with what it promises
--   Nonce/Memory      internal/siwe/nonce/memory.go: Put, Consume, the janitor's sweep. A function is one
--                     critical section under a shard's mutex, so a run of the store under any number of
--                     goroutines is a list of steps with readings of the clock (Nonce/Memory/Runs)
--   Nonce/Postgres    internal/siwe/nonce/postgres.go: Put, Consume, the janitor's sweep, over the statements
--                     of a database. Each statement is atomic, so a run of any number of replicas is a list
--                     of them; a failing statement may have been executed
--   Nonce/Redemptions how often a nonce is redeemed along the calls of any store
--   Siwe/Config       internal/siwe/config: Load
--   Siwe/Message      internal/siwe/message/message.go: Message.String
--   Siwe/Verifier     internal/siwe/signer/verifier.go: Verify, verifyEOA, verifyERC1271
--   Siwe/Token        internal/siwe/token/token.go: Issue
--   Siwe/Server       internal/siwe/server/handlers.go: Challenge and Token, over any Store; the states that
--                     requests reach are in Siwe/Server/Soundness
--   Keyset            internal/keyset: Load, Sign, ActiveKID, JWKS
--
-- The exchange surface:
--   Exchange/Config      internal/exchange/config: Load, SigningKeys
--   Exchange/Models      internal/exchange/models: AssetDID, the documents, EventFilter
--   Exchange/Claims      pkg/tokenclaims: the tables of privileges and the claims
--   Exchange/Autheval    internal/exchange/autheval: EvaluateCloudEvents and the agreements; in Grants
--                        UserGrantMap and EvaluatePermissions; in Masks IntArrayTo2BitArray and
--                        EvaluatePermissionsBits; in Sources GetValidAgreements
--   Exchange/Signature   internal/exchange/signature/validator.go: ValidateSignature
--   Exchange/Ipfs        internal/exchange/services/ipfs_service.go: NewIPFSClient, Fetch, GetValidSacdDoc
--   Exchange/Template    internal/exchange/services/template: GetTemplatePermissions, with its cache as a state
--   Exchange/Proxy       internal/exchange/services/sacdproxy: CurrentPermissionRecord, GetPermissions
--   Exchange/Access      internal/exchange/services/access: ValidateAccess and its two ways
--   Exchange/Signer      internal/exchange/services/signer.go: SignPrivilegePayload
--   Exchange/Middleware  internal/exchange/middleware/valid_dev_license.go and internal/exchange/api
--   Exchange/Auth        internal/exchange/middleware/auth.go: the check of the bearer token
--   Exchange/Routes      internal/exchange/app/app.go: the route POST /tokens/exchange
--   Exchange/Identity    internal/exchange/services/identity_service.go: IsDevLicense
--   Exchange/Controller  internal/exchange/controllers/httpcontroller: ExchangeToken; in Reads what it reads
--                        in a request, and in Fills what it fills in
--   Exchange/Rpc         internal/exchange/controllers/rpc: AccessCheck
--
-- The process:
--   App               cmd/dauth/main.go (run up to its servers, buildSIWE, newStore) and
--                     internal/exchange/app/app.go (CreateServers): what is made of which setting
--   App/Mux           net/http: what the routes ask of its mux, and its documentation as laws
--   App/Routes        the routes of internal/siwe/server/server.go, internal/exchange/app/app.go and
--                     cmd/dauth/main.go: the public handler
--   App/Served        what the public handler answers at its paths; in Published what the discovery
--                     documents say of them, and in Guarded who gets a permission token
--   App/Session       the token of a sign-in at the exchange of the same process
--
-- The handlers take the store, and the access service takes the SACD contract, the template service, the
-- document store and the validator, as records of operations; Exchange/Proxy and Exchange/Template
-- supply two of them. Tests run the parts on concrete collaborators.
--
-- Conventions. An instant is a number of nanoseconds from the start of the year -1, and the readings of
-- the clock, random bytes and fresh identifiers are arguments, one for each reading that the code makes.
-- A map with text keys is an association list, a missing name of a map[string]bool reads false, and the
-- array of shards is a function of the index. A body is an argument after its decoder. Errors are values
-- of Base/Errors, whose texts keep the literal part of a format; a nil pointer and a panic (big.Int.Bit at
-- a negative index, the first key of an empty set) are `none`. Go's int64 doubling in
-- EvaluatePermissionsBits wraps at 64 bits, and IntArrayTo2BitArray is taken for lengths up to 2^62, the
-- code's only length being 128. Recursion is structural, or on a fuel that is the number itself where
-- bits or bytes of a number are counted, which are fewer than the number.
--
-- The loop of Numbered runs on a fuel of one more than the entries of the environment; it is shown to end
-- before. A configuration's url.Parse and time.ParseDuration, the database, the JWT parser and encoder,
-- net/http's mux, the sets of shared/pkg/set and the JSON codecs are parameters, with what is relied on
-- as the laws of a record beside them (DatabaseLaws, JwtLaws, MuxLaws, SetLaws,
-- and AddressLaws, which says that an address is 20 bytes). Go ranges over a map in
-- an order that is an argument of the loader.
--
-- Not modelled: the sockets and their shutdown, internal/ops, logging and metrics, which only do
-- input and output; and the generated bindings, stubs and API documents.
pub mod Base
pub mod Env
pub mod Ethereum
pub mod Httpmw
pub mod Nonce
pub mod Keyset
pub mod Oidc
pub mod Siwe
pub mod Exchange
pub mod App
pub mod Tests
