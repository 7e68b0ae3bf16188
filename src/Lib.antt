-- ===== src/Lib.antt =====
-- A model of Roshi, a Solana program that keeps tokenized vaults: depositors hold shares of a vault's
-- assets, a NAV authority reports what the assets are worth, and withdrawals go through tickets.
--
-- The parts, and how they interact. The interface crate (crates/interface) holds the arithmetic of
-- shares, fees and prices, the vault's record with its accounting, the configurations of oracles,
-- the access list and the operations of relayed actions; the program crate (crates/roshi) holds the
-- handlers, which load accounts, check them, call the vault's accounting and the token program, and
-- store the vault again.
--
-- Common: what the other files share: Boolean tests, `Result` with Rust's `?`, the error codes of
--   crates/interface/src/error.rs, the words u8 to u128 and i64 with their checked operations, byte
--   strings, and what it means for a quotient to be rounded.
-- Math: crates/interface/src/math.rs. Math/Rounding, Math/Pow, Math/Pricing, Math/Shares and
--   Math/Fees hold its theorems.
-- Oracle: crates/interface/src/oracle.rs and oracle/configs.rs, the bytes of the legs included.
-- Vault: crates/interface/src/state/vault.rs; Vault/Config its construction and validation. The
--   theorems are in Vault/Config/Validity, Vault/Unlock, Vault/Debit, Vault/Drip and Vault/Report.
-- Access: crates/interface/src/access.rs, and `allows_depositor` of the vault; Access/Tree.
-- Action: crates/interface/src/action.rs, the stored form of operations; Action/RoundTrip. Action/Hash
--   has the list of them and the preimage of the hash, and below it its theorems.
-- Feeds: crates/roshi/src/oracle, the readers of the three providers: Feeds/Parse their bytes,
--   Feeds/Pyth, Feeds/Scope and Feeds/Switchboard the verified reads, Feeds/Session the legs and the
--   session of crates/roshi/src/instructions/accounts/oracle_price.rs.
-- Token: crates/roshi/src/instructions/token.rs, the readers and verifiers; Token/Extensions.
-- Runtime: what the handlers use of the Solana runtime, as an interface over a state `W`, and the
--   laws that the token program documents for a mint's supply and for balances; Runtime/Balances.
-- Tickets: crates/roshi/src/state/withdrawal_ticket.rs, and the state of the handlers: the vault,
--   the open tickets by account, and the runtime's state.
-- Records, Accounts: crates/roshi/src/state and crates/interface/src/state/asset.rs, the stored
--   accounts and their loading. Accounts/Deposits and Accounts/Settlements are the loaders of the
--   same names in crates/roshi/src/instructions/accounts, with the worth of a deposit, and
--   Accounts/Checks what the checks of accounts establish.
-- Accounts/Swaps: how a swap is valued (crates/roshi/src/instructions/accounts/swap.rs), and the bound
--   on its value in crates/roshi/src/instructions/execution/swap.rs.
-- Admin: the administrative handlers of crates/roshi/src/instructions/admin; Admin/Custody those
--   that move base assets, and Admin/Flash the flash-fee rate of an action.
-- AtomicRedeem: the settlement of an atomic redeem, in
--   crates/roshi/src/instructions/execution/atomic_redeem.rs.
-- System: the handlers as steps of one relation on states, and what they keep.
-- Deposit, Redeem, Withdrawals, NavReport: the handlers of the same names, in
--   crates/roshi/src/instructions/user and crates/roshi/src/instructions/admin. Their children
--   Deposit/Books, Redeem/Supply, Withdrawals/Payments, Withdrawals/Conservation and
--   NavReport/Books hold the theorems.
-- Examples, Math/Examples: concrete vaults, runs and uses of the theorems.
--
-- The model. A number is a natural number; the words' bounds are hypotheses where a theorem needs
-- them, and each checked operation tests its own. An operation on `&mut self` returns the new vault.
-- A handler takes its loaded context and the state, and returns the new state or the error; an
-- error stores nothing. The clock is an argument. Signers are accounts with their flag. The only
-- fuel is that of the scan of a mint's extensions, which gets the length of the data: each turn
-- moves the offset on by four bytes or more.
--
-- Not modelled: the serialization of accounts, the derivation of addresses, the hashes and the
-- Switchboard quote verifier, which are other crates' (where a definition needs one it is a
-- parameter); the dispatch of instructions, but for the arms that administer a vault; the relayed
-- execution of actions, of swaps all but the bound on their value and of atomic redeems all but their
-- settlement, and the flash delegate checks that belong to it; the handlers that create a vault, the
-- configuration, an asset, an action or a destination; the client crate. A step of the system takes
-- its context as the loaders give it; that every address of a ticket stands for one vault, owner and
-- index rests on the derivation of addresses. A relayed call to another program writes no account of
-- this one, so that it is a step that changes neither the vault nor its tickets; a relayed call to the
-- program itself is not modelled.
pub mod Common
pub mod Math
pub mod Oracle
pub mod Vault
pub mod Feeds
pub mod Access
pub mod Token
pub mod Runtime
pub mod Tickets
pub mod Redeem
pub mod Withdrawals
pub mod Deposit
pub mod NavReport
pub mod Records
pub mod Accounts
pub mod Admin
pub mod AtomicRedeem
pub mod Action
pub mod System
pub mod Examples
