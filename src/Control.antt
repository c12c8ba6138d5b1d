-- ===== src/Control.antt =====
-- internal/control: the control socket between an operator and the controller.
pub mod Server
pub mod Refusals
pub mod Answers
