-- ===== src/Input.antt =====
-- internal/modules/input: the input modules, which fetch the records of a run.
pub mod Response
pub mod Paging
pub mod Webhook
