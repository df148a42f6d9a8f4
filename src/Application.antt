-- ===== src/Application.antt =====
-- include/pfh/application and src/application: the application layer's messages and services.
pub mod Outbox
pub mod Publisher
mod Tests
pub mod AuthModels
