-- ===== src/Controller.antt =====
-- internal/controller/controller.go: the handlers of the workflow phases, the scheduler and the
-- requests of the control interface.
pub mod Moves
pub mod Candidates
pub mod Prepublish
pub mod Evidence
pub mod Publish
pub mod Signature
pub mod Parent
pub mod Retire
pub mod Enroll
pub mod EnrollParent
pub mod Notify
pub mod Scope
pub mod Bootstrap
pub mod Schedule
pub mod Requests
pub mod Arm
pub mod Trigger
pub mod Resume
pub mod Reconcile
pub mod Views
pub mod Audit
