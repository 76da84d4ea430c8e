-- ===== src/Notifications.antt =====
-- E-mails with their retries and their log: src/handlers/celery_tasks/notification_tasks.py and
-- src/data/repositories/notification_log_repository.py.
pub mod Log
pub mod Task
pub mod Attempt
pub mod Delivery
pub mod Decision
