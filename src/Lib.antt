-- ===== src/Lib.antt =====
-- A verification library for relstate, a rental platform with confidential deposits.
--
-- The TypeScript services decide what the platform's keys sign and what they pay for. The sponsor
-- co-signs transactions that a client built, so it reads the wire bytes (backend/src/txinspect.ts,
-- Transaction.antt), refuses every shape in which its key could do more than pay fees, and bounds
-- the fees (Transaction/Budget.antt, Transaction/FeePayer.antt, Transaction/Policy.antt), all
-- against the ids of backend/src/contracts.ts (Programs.antt). What it spends is booked in two
-- phases by the limiter of backend/src/limits.ts (Limits.antt); backend/src/sponsor.ts puts these
-- together (Sponsor.antt). The rent route co-signs with the treasury key instead: its registry of
-- proof contexts, backend/src/rentplan.ts, is RentPlan.antt, and the shape of a transaction that it
-- accepts, backend/src/rentshape.ts, is RentShape.antt; the treasury also pays for the setup of
-- confidential accounts, whose shape backend/src/treasury.ts checks (ConfidentialSetup.antt). The
-- routes themselves are in backend/src/treasury.ts: cosignAndSend and the setup of an account
-- (Cosigning.antt), the rent payment over the limiter, the plans and the remembered messages
-- (RentRoute.antt), and the grant of a wallet's first rent (RentDust.antt). The reserve behind
-- rUSDC, with the calls that mint and burn it, is the ledger of the same file (Treasury.antt). The
-- on-ramp, backend/src/providers/onramp.ts, turns the paid events of a provider into calls of the
-- treasury (Onramp.antt); its amounts are converted by backend/src/providers/money.ts (Money.antt).
-- A caller is known by a signed challenge of backend/src/wallet-auth.ts (WalletAuth.antt). The
-- invitations of appraisers are backend/src/invites.ts (Invites.antt).
--
-- Conventions. An address is the number that its 32 bytes spell; a byte is a number; a text that is
-- only compared is a number. Times are milliseconds on ℕ. `throw` is `err` of the Result type of
-- Common/Results.antt, carrying the code and not the message. Objects that two structures share are
-- references into a heap: a function from ℕ with the next free reference. A JavaScript Map or Set
-- is an association list or a list, kept in insertion order (Common/Dict.antt). Loops over arrays
-- are structural recursion. A call that may throw keeps what it wrote, so stateful code is a function
-- from a state to a state and a Result (Common/Actions.antt). A request runs to its end before the
-- next one starts, except where a file says that requests interleave, and reads the clock once. The
-- retry loop of the sponsor counts its attempts down, the eviction loops of the login store have
-- the number of entries to drop from as fuel (one goes each round), and the decimal text of a
-- number has the number itself as fuel, which each division by ten makes smaller.
--
-- Not modelled: the rest of the backend (the off-ramp, Stripe and the identity checks, the account
-- decoders, the RPC proxy), the on-chain program (Rust), the React front ends, HTTP routing, and
-- the decoding and signature libraries, which are parameters where their result matters.
pub mod Common
pub mod ConfidentialSetup
pub mod Cosigning
pub mod Invites
pub mod Limits
pub mod Money
pub mod Onramp
pub mod Programs
pub mod RentDust
pub mod RentPlan
pub mod RentRoute
pub mod RentShape
pub mod Sponsor
pub mod Transaction
pub mod Treasury
pub mod WalletAuth
