-- ===== src/Controller.antt =====
-- src/cert_publisher/controller.py: watchers turn the events of the API server into keys, and workers
-- reconcile the keys of the queue.
pub mod Keys
pub mod Watcher
pub mod Worker
pub mod Wakeups
pub mod Lifecycle
mod Examples
