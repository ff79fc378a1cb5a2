-- ===== src/Lib.antt =====
-- A model of the on-chain programs of solYield, and proofs about it. Adapters to yield protocols
-- are proposed, approved, paused and deprecated in a registry (programs/registry/src/lib.rs) by one
-- governance authority; a dispatcher (programs/dispatcher/src/lib.rs) routes a user's deposit,
-- withdrawal or value query to the adapter program that an approved registry entry names. An
-- adapter (programs/adapters/*/src/lib.rs) keeps a position for each user, calls its protocol and
-- answers a value query with eight bytes.
--
-- Base: Boolean tests, lists over the native numbers, results, checked words, little-endian
--     bytes, words of an account's data at an offset, text as code points, signed words, and a
--     store of accounts by address.
-- Solana: addresses, accounts, metas and instructions as the programs name them, and the
--     parameters for program-derived addresses and for the chain that an adapter calls. A Pubkey
--     is the number of its 32 little-endian bytes, so the default key is 0.
-- Registry: Types, Validate and Handlers follow the structs, the validate_* functions and the
--     handlers of mod registry; Program runs a handler behind the checks of its derive(Accounts)
--     struct, on the store of the accounts that the program owns. Spec is the status diagram and
--     the step relation; Refines and Complete relate it to the code; Invariant, Lifecycle,
--     Authority and Errors hold the properties; Samples and Tests the concrete runs.
-- Dispatcher: Types, Validate and Handlers follow the structs, validate_adapter_entry and the
--     handlers with the helpers that build an instruction; Routing and Data are about the call
--     that the adapter gets and the value that it returns, Approval about the dispatcher over
--     accounts that the registry can leave.
-- Template (programs/adapters/adapter-template): Types and Handlers follow the structs and the
--     handlers; Ledger is the position as a balance, Query its value query as the dispatcher
--     reads it.
-- Maple (programs/adapters/maple-syrup): Types, Feed, Validate and Handlers follow the structs,
--     read_feed_answer with shares_to_usdc_value, the validate_* functions and the handlers;
--     Price is about the feed's ring and the value, Access about what the checks establish, Vault
--     about when a handler succeeds and what it does. The adapter's README says in its sections on
--     current_value and on limitations that the value is the token amount; the code, which is what
--     is modelled, converts it to USDC units by the feed, as docs/INTEGRATION_NOTES.md says.
-- Marginfi (programs/adapters/marginfi-usdc): Types, Fixed, Validate, Calls and Handlers follow
--     the structs, the reading of accounts with the I80F48 arithmetic, the validate_* functions,
--     the instructions of the calls and the handlers; Rounding is about the fixed-point product,
--     Balances about the scan of an account's data, Access and Permit about what the checks
--     establish, Effects about when a handler succeeds and what it does.
-- Kamino (programs/adapters/kamino-usdc): Types, Reserve, Exchange, Validate, Calls and Handlers
--     follow the reserve's layout and its reading, the conversions between collateral and
--     liquidity, the checks of accounts, the instructions for Kamino and the handlers; Conversion is
--     about the conversions, Permit and Access about the checks, Effects about the handlers. The id
--     of the instructions sysvar is a parameter. The two derive_reserve functions, which nothing
--     calls, have no definition.
-- Drift (programs/adapters/drift-insurance-fund): Types, Stake, Validate, Calls and Handlers follow
--     the layouts of stake and market, their reading and the value of a stake, the checks of
--     accounts, the instructions for Drift and the handlers; Worth is about the value, Access and
--     Permit about the checks, Effects about the handlers, Opening about a new position. A
--     withdrawal is the request of a removal, which the repository has no instruction to settle.
-- Jupiter (programs/adapters/jupiter-lp): Types, Pool, Quote, Validate, Calls and Handlers follow
--     the layouts, the reading of accounts with the scan of a list of keys, the conversions between
--     amounts and LP tokens, the checks of accounts, the instructions for Jupiter and the handlers;
--     Custodies is about the reading of a pool, Slippage about what a deposit accepts and a
--     withdrawal burns, Access and Permit about the checks, Effects about the handlers.
--
-- Code that is not in the repository enters as a parameter: Pda stands for
-- Pubkey::find_program_address and Pubkey::create_program_address, with the law that the address
-- found is created again from the same seeds with the bump; Runtime stands for invoke and
-- get_return_data, and Chain for the accounts' owners and data, invoke and invoke_signed, where
-- any call may change them. Anchor's checks of the attributes seeds, bump, init, mut, has_one and
-- Signer are written out for each accounts struct. A failed instruction changes no account, since
-- the runtime discards the transaction, so an error carries no state. The slot of Clock::get is an
-- argument. A read by an index or by a slice, and a subtraction or a remainder with no check, is the
-- error panicked where it has no result; offsets and sums of offsets are far below a usize.
--
-- Not modelled: rent and the payment for a new account, the system program account, the
-- serialization of accounts and events, borrow conflicts of account data, and compute limits.
-- Every loop of the code is a structural recursion, so no fuel is used.
pub mod Base
pub mod Solana
pub mod Registry
pub mod Dispatcher
pub mod Template
pub mod Maple
pub mod Marginfi
pub mod Kamino
pub mod Drift
pub mod Jupiter
