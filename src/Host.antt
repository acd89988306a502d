-- ===== src/Host.antt =====
-- What the contracts take from the neo-go virtual machine (github.com/nspcc-dev/neo-go/pkg/interop):
-- the interface of the storage, the conversions of stack items, the hash functions and the native
-- contracts, all as parameters, and the monad in which a contract method runs.
pub mod Storage
pub mod Exec
pub mod Reply
pub mod Entries
pub mod Frame
