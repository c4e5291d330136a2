-- ===== src/Notifications.antt =====
-- apps/notifications: transactional e-mail, its delivery feedback, suppression and recovery.
pub mod Feedback
pub mod Revision
pub mod Delivery
pub mod Destination
pub mod Command
