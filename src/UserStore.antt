-- ===== src/UserStore.antt =====
-- broker/users.py: the users of the web portal and their API keys.
pub mod Document
pub mod Store
pub mod Valid
pub mod Steps
pub mod Keys
pub mod Reload
pub mod Names
