-- ===== src/Safety.antt =====
-- What the controller never does: changes of keys and of the parent without evidence.
pub mod Conditions
pub mod Guards
pub mod Calls
pub mod Evidence
pub mod Safe
pub mod Waits
pub mod Remains
pub mod Retire
pub mod Signer
pub mod Submit
pub mod Parent
pub mod Create
pub mod Advance
pub mod Tick
pub mod Once
pub mod Observe
pub mod Promises
pub mod Requests
