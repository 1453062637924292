-- ===== src/Lib.antt =====
-- The SwapTrade contracts: a model of Soroban contracts of the workspace swaptrade-contracts, and
-- what they guarantee.
--
-- The parts. A contract runs inside a host: it reads the time stamp, asks for authorizations, keeps
-- a persistent storage, publishes events and calls token contracts. The contracts modelled here do
-- not call each other.
--
--   Host          the host as the contracts use it. An entry point is a function from a `World`
--                 (the contract's storage, the state of the token contracts, the events) to a
--                 result and the world after it. A result is `ok`, `err` with the contract's error,
--                 or `trap` for a panic: a failed `require_auth`, `panic!`, a checked overflow (the
--                 release profile has overflow-checks = true). `invoke` is the host's rule that the
--                 effects of a call stand only if the call returns `Ok`.
--   Host.Tokens   the token contracts. Their code is not in the repository: `balance` and `transfer`
--                 are parameters, and `IsToken` is what a token's documentation says of a transfer
--                 that succeeds. Host.Ledger is a small ledger that satisfies it, for the tests.
--   Escrow        swaptrade-contracts/escrow-dispute/src: Types (types.rs, errors.rs), Events
--                 (events.rs), Storage (storage.rs), the entry points of lib.rs in Escrow.antt and
--                 the getters in Queries. Calls has the sequences of invocations; Moves is the
--                 abstract machine that Refinement relates the entry points to; the other files
--                 prove what their names say.
--   AtomicSwap    swaptrade-contracts/atomic-swap/src, in the same layout.
--   Governance    swaptrade-contracts/governance/src: Types (types of storage.rs, errors.rs,
--                 events.rs), Storage (storage.rs), Controller (governance_controller.rs), Proxy
--                 (upgradeable_proxy.rs), `initialize` of lib.rs in Governance.antt, and Signers
--                 for what it uses of `Vec<Address>`. Machine is the abstract machine that Changes
--                 relates the entry points to, and Effects is what its steps mean for the proposals. It
--                 calls no token.
--   TradeEngine   swaptrade-contracts/trade-engine/src: Types (types.rs, errors.rs, events.rs), Storage
--                 (storage.rs, token.rs), OrderBook (orderbook.rs), Pools (liquidity_pool.rs), Matching
--                 (matching.rs) and the entry points of lib.rs in TradeEngine.antt. `match_leg` has
--                 its code once for each side; the model has it once, with functions of the side for
--                 what differs. Matching.Rounds and Matching.Legs describe what a leg that returns
--                 `Ok` has done; Priority and Ranking are about the order of a book, and the files
--                 of Calls about sequences of invocations.
--   PoolRegistry  the registry of constant-product pools of the contract counter,
--                 swaptrade-contracts/counter/src/liquidity_pool.rs: Types (with counter/src/errors.rs and
--                 the events that it publishes), Root (`sqrt`), Quotes (quotes and routes) and the
--                 methods that write in PoolRegistry.antt, with `require_admin` of counter/src/admin.rs;
--                 Trade and Routes prove what swaps and routes do, Writes, Sound and Calls what
--                 sequences of its methods keep. The fuel of `sqrt` is its argument.
--   Host.Words    i128 and u128: casts, saturating and checked operations.
--
-- Conventions. Addresses, hashes and symbols are only compared, so they are numbers. Amounts
-- (i128) are integers: Escrow, AtomicSwap and Governance compare them and pass them on, and
-- compute with none; TradeEngine and PoolRegistry compute with them as Host.Words says. Time
-- stamps and ids (u64) are naturals; where the source saturates or checks an addition, the
-- definition does. A storage key that was never written is `none`, and each reader has the
-- source's default. A loop over a `Vec` is structural recursion on the list, and one over ids on
-- how many are left; only the `sqrt` of PoolRegistry has fuel, its argument, from which a
-- variable of the loop falls. The entry points keep the source's order of checks, transfers,
-- writes and events.
--
-- A sequence of invocations (`Reach`) lets anyone invoke anything in any order; for Escrow and
-- AtomicSwap, between steps of the token contracts that take nothing from the contract, and with a
-- contract that authorizes nothing itself, which is so for one that has no code to do it.
--
-- Not modelled: the encoding of values and storage keys, the lifetime of storage entries, fees and
-- gas, and re-entrant calls from a token contract. Of the other contracts of the workspace,
-- access-control and the small ones are not modelled, nor is what counter has beside its pools.
pub mod Prelude
pub mod Host
pub mod Escrow
pub mod AtomicSwap
pub mod Governance
pub mod TradeEngine
pub mod PoolRegistry
