-- ===== src/Lib.antt =====
-- A model of the FrostFS contracts, written in Go for the Neo virtual machine, with theorems about
-- them. All contracts of the repository are modelled with their methods that change state. Most
-- methods are guarded by the alphabet nodes: with notary by one multisignature, without notary by
-- votes that common/vote.go collects in the storage of the contract. Netmap starts a new epoch and
-- calls the balance and the container contract; container takes its fees through balance, asks
-- netmap for the configuration and the network map, and keeps aliases in the name service; frostfs
-- takes and gives GAS and tells the sidechain of it by notifications; alphabet gives GAS to proxy
-- and the nodes.
--
-- The files, and what they model:
--   Prelude, Prelude/*: names of the library, integers, byte strings, Boolean tests.
--   Host/Storage: the machine as a record `Vm` (storage, serialization, hashes, calls of other
--     contracts) with the laws that its documentation gives, and the transaction as a record `Env`.
--   Host/Exec: methods as functions of a state (storage, other contracts, notifications) into a
--     result or an error; an error takes everything back, as the machine does.
--   Host/Reply, Host/Entries, Host/Frame: replies of other contracts, the values that a search finds,
--     and the cells that a method leaves alone, put together from its steps.
--   Common/Ir, Common/Transfer, Common/Version, Common/Vote: common/ir.go, common/witness.go,
--     common/update.go, common/transfer.go, common/version.go, common/vote.go.
--   Common/Vote/*: the ballots as a map from decisions to sets of voters.
--   Common/Quorum: the guard that the methods write out each, as one definition.
--   Balance, Balance/*: balance/balance_contract.go. The state is an account for each key of 20
--     bytes and the supply; the methods are in Balance/Methods.
--   Netmap, Netmap/*: netmap/netmap_contract.go. The candidates are in Netmap, the ring of snapshots
--     is in Netmap/Snapshots, the methods are in Netmap/Methods; Netmap/Filter, Netmap/Ring,
--     Netmap/Epoch and Netmap/History are about the maps that NewEpoch stores.
--   Subnet, Subnet/*: subnet/subnet_contract.go.
--   Frostfs, Frostfs/*: frostfs/frostfs_contract.go, with the alphabet and the configuration in
--     Frostfs/Alphabet and the movements of GAS in Frostfs/Funds.
--   Frostfsid, Frostfsid/*: frostfsid/frostfsid_contract.go.
--   Container, Container/*: container/container_contract.go. Container has the cells and the methods
--     that only read, Container/Deploy the begin, Container/Methods the methods that the alphabet
--     invokes, Container/Aliases what they do in the name service, Container/Estimations the sizes
--     that the nodes announce.
--   Nns, Nns/*: nns/nns_contract.go, nns/namestate.go and nns/recordtype.go. The checks of names and
--     addresses are in Nns/Names and Nns/Addresses, the state of names and the balances of accounts
--     in Nns/Tokens, records in Nns/Records, registration in Nns/Registration (its proofs in
--     Nns/Checks, Nns/Taking and Nns/Quiet), the other methods in Nns/Methods.
--   Audit, Audit/*: audit/audit_contract.go. Reputation, Reputation/*:
--     reputation/reputation_contract.go. Alphabet, Alphabet/*: alphabet/alphabet_contract.go.
--   Proxy: proxy/proxy_contract.go and processing/processing_contract.go.
--   Tests, Tests/*: a concrete machine that satisfies the laws, and runs of the theorems on it.
-- A function of the source has the same name here in this language's spelling (`canTransfer` is
-- `can_transfer`); an exported method whose name an internal function has too ends in `_method`.
-- The part of a method behind its guard has its own name where a theorem is about it
-- (`mint_assets`).
--
-- Bounds. Integers are unbounded here; the machine faults beyond 256 bits, which is not modelled,
-- and it converts no integer on `int64`. Block heights are natural numbers. Loops are recursions
-- on the list or on the number of rounds that the bounds of the loop give, so they need no fuel.
-- The last byte of a snapshot's key is its index modulo 256, where the machine faults from 256 on;
-- the theorems are about rings of at most 256. `runtime.Log` is left out.
--
-- `Resolve` follows at most two redirects, which is its recursion. An iterator that a method
-- returns is the list that it runs through, taken from the storage at the time of the call; the
-- loops that change the storage run through such a list too.
--
-- Not modelled: the methods that return a constant (Symbol, Decimals, Version) and the payment
-- callback of the container contract, which does nothing; `ListConfig` of netmap, which only
-- reads; the messages of errors where they name a record or a domain. `ListContainerSizes` gives
-- its identifiers in the order of the search, where the source goes through a map. Texts are lists
-- of bytes; std.StringSplit, std.Atoi, std.Itoa, std.Base58Encode and std.MemorySearchLastIndex
-- are parameters. A call of another contract is an operation of the machine. A call of a contract
-- of the repository or of the chain (`call_contract`) may change the state of other contracts and
-- not the storage of the caller; the calls that can reach a contract of a user, the onNEP11Payment
-- of postTransfer and the payment of Cheque, go through `call_back`, which may change the storage
-- of the caller in any way. The machine faults on a key of more than 64 bytes and a value of more
-- than 65535 bytes; this is not modelled, so that a theorem that says that a method succeeds is
-- about keys and values within these limits. A sender that is nil is empty bytes in the
-- notifications of the balance contract.
pub mod Prelude
pub mod Host
pub mod Common
pub mod Balance
pub mod Netmap
pub mod Subnet
pub mod Frostfs
pub mod Frostfsid
pub mod Reputation
pub mod Proxy
pub mod Alphabet
pub mod Audit
pub mod Container
pub mod Nns
pub mod Tests
