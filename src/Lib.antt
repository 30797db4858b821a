-- ===== src/Lib.antt =====
-- Lunes Nightly is a blockchain node made with Substrate: a runtime (runtime/src), which decides
-- what a block does, and a node (node/src), which starts a chain and makes some transactions of
-- its own. Almost all of its behaviour comes from pallets and crates that the repository only
-- configures. This library models the code that is the repository's own. The pallets, codecs and
-- host functions that it calls are records of operations, arguments of the definitions; what a
-- theorem needs of them is a record of laws, `IsLawful`, which states what they document. Each
-- such record of laws has a concrete instance in a module of tests, where the theorems are
-- applied to it.
--
-- The parts and their files:
--
-- - Constants: runtime/src/constants.rs, the amounts of money (100,000,000 units to a LUNES) and
--   the spans of time.
-- - Fees: runtime/src/lib.rs, `WeightToFeeLunes` as `weight_to_fee`; Fees.Deal has `Author`,
--   `TreasuryLunes` and `DealWithFees`, as functions on the state of the chain that take
--   imbalances (the pallet's linear type for money in transit, whose drop lowers the issuance,
--   is an abstract type with a function `drop`). Fees.Bounds, Fees.Conservation and Fees.Shares
--   prove their laws, Fees.Spam what it costs to fill a block.
-- - Mint: runtime/src/lib.rs, `RestrictAssetMint` as `validate` and `pre_dispatch`; how an
--   extrinsic is applied with such an extension is a parameter. Mint.Lock proves what it locks,
--   and what it does not; Mint.Open what stays open.
-- - Extension: runtime/src/chain_extension.rs, the PSP22 functions that contracts call, one
--   handler each, as actions on the chain and the contract's memory that return an error or a
--   value; `dispatch` and `call` are `Psp22Extension::call`. Extension.Ids has the function ids,
--   Extension.Pallet the input structs and what comes from libraries, Extension.Documented the
--   laws and Extension.Amounts those on the amounts that the pallet moves. Extension.Authority,
--   Allowance, Rollback and Errors prove who may do what, what a successful call does and what a
--   failed one leaves behind. Extension.Token is an abstract token, without pallet, codec and
--   memory; Extension.View reads it off a state of the chain, and Extension.Refines proves that
--   a successful call is a step of it, over Extension.Changes, Movements and Approvals;
--   Extension.Supply follows the sum of the balances through a sequence of calls.
-- - Template: pallets/common/src/lib.rs, the pallet with one stored number; Template.Laws, and
--   Template.Spec for the step relation that it implements.
-- - Genesis: node/src/chain_spec.rs, `mainnet_genesis`; Genesis.RootKey is `get_root_key`,
--   Genesis.Specs the four chain specifications and `load_spec` of node/src/command.rs.
--   Genesis.RootKey.Parse, Issuance, Roles and Funding prove the parsing of the key, where the
--   issuance goes, who has which role, and that the built-in specifications build.
-- - Transaction: `create_transaction` of runtime/src/lib.rs and the extra of
--   `create_benchmark_extrinsic` of node/src/benchmarking.rs; Transaction.Period and
--   Transaction.Signed.
-- - Election: runtime/src/lib.rs, `OffchainRandomBalancing`.
-- - Service: node/src/service.rs, `new_partial` and `new_full` (in Service.Full) as sequences of
--   steps that may fail, over a world of the libraries; each successful call is noted in a list
--   of events. Service.Trace has the lemmas on such steps, Service.Start, Order and Success
--   prove what is done in which order, what a failed start has done, and when a start succeeds.
-- - Command: `run` of node/src/command.rs with the subcommands of node/src/cli.rs (in
--   Command.Jobs) and `inherent_benchmark_data` of node/src/benchmarking.rs. It runs on the
--   steps of Service; what the command libraries do is a parameter. Command.Access and
--   Command.Refused prove what subcommands open and what a build refuses.
-- - Rpc: `create_full` of node/src/rpc.rs; Rpc.Methods.
-- - Benchmark: `create_benchmark_extrinsic` and the two builders of node/src/benchmarking.rs,
--   over the signing of Transaction; Benchmark.Valid.
-- - Governance: runtime/src/lib.rs, the origins that the configuration gives to the rights of
--   democracy, treasury, identity and other pallets, as the function `allows`; Governance.Ranks
--   orders the rights, Governance.Coalitions sets two groups of the council against each other.
-- - RuntimeApi: runtime/src/lib.rs, `impl_runtime_apis`. RuntimeApi.Payment has the
--   configuration of the payment pallet and the payment APIs, RuntimeApi.Blocks those that make,
--   import and check blocks, RuntimeApi.Queries those that only read, RuntimeApi.Contracts that
--   of contracts, RuntimeApi.Tooling those of builds for benchmarks and try-runtime.
--   RuntimeApi.Quotes proves what is quoted, on top of Fees.
-- - Pallets: runtime/src/lib.rs, `construct_runtime` and the table of benchmarks; Pallets.Index
--   has the numbering of the pallets, Pallets.Listed the fit of the two tables.
-- - Flows: runtime/src/lib.rs, the handler that each pallet's configuration names for the fees,
--   slashes, burns and dust that it takes, over the handlers of Fees.Deal; Flows.Split has the
--   table of who gets which part.
-- - Schedule: the periods of runtime/src/lib.rs with the units of runtime/src/constants.rs, as
--   functions of the block time, so that builds can be compared; Schedule.WallTime and
--   Schedule.Windows.
-- - Deposits and Limits: the deposits and the bounds among the parameter types of
--   runtime/src/lib.rs; Deposits.Floor and Limits.Fit set them against each other.
-- - Migrations: runtime/src/migrations.rs, the list of migrations with their hooks.
-- - Weights: runtime/src/weights/frame_system.rs; Weights.Linear.
-- - VoterBags: runtime/src/voter_bags.rs, the table of thresholds; VoterBags.Cover and Ratio.
-- - Prelude: shared names, tests over the native numbers, lists, saturating and checked machine
--   words, results and the state-passing `Action`.
--
-- Accounts, assets, amounts and keys are natural numbers; where a machine integer saturates,
-- wraps or is checked, the bound is written out (`u32_max`, `u128_max`, `2 ^ 32`, `2 ^ 128`). A
-- panic is `none`. The only fuel is the 32 of `checked_next_power_of_two`, one for each power of
-- two that a `u32` holds, so that the search ends where the source's does.
--
-- Not modelled: of the configuration of the pallets the types and the bounds that stand alone,
-- which are only handed on to libraries; of the command line, the texts about the program; of
-- the node's configuration, what the service only hands on; build scripts, shell scripts,
-- documents and generated JSON.
pub mod Prelude
pub mod Constants
pub mod Fees
pub mod Mint
pub mod Extension
pub mod Template
pub mod Genesis
pub mod Transaction
pub mod Election
pub mod Service
pub mod Command
pub mod Rpc
pub mod Benchmark
pub mod Governance
pub mod RuntimeApi
pub mod Pallets
pub mod Flows
pub mod Schedule
pub mod Deposits
pub mod Limits
pub mod Migrations
pub mod Weights
pub mod VoterBags
