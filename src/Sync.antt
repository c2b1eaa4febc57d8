-- ===== src/Sync.antt =====
-- Synchronisation: termination detection of epochs (libs/src/core/sync/termination.c) and events
-- (libs/src/core/sync/event.c).
pub mod Epoch
pub mod Event
