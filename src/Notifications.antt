-- ===== src/Notifications.antt =====
-- notifications/ and services/terminal_hooks.py: what is sent when a run has ended.
pub mod Events
pub mod Dispatcher
pub mod Terminal
pub mod Delivery
pub mod Routing
