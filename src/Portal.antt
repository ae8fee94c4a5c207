-- ===== src/Portal.antt =====
-- The web portal of the broker: broker/admin.py, broker/auth.py and broker/test_auth.py.
pub mod RequestLogger
pub mod State
pub mod Admin
pub mod SignIn
pub mod TestSignIn
pub mod Pages
pub mod AdminPages
pub mod Guards
pub mod Blocking
pub mod Follows
pub mod Steps
pub mod Broker
pub mod Reachable
pub mod Callback
pub mod SignedIn
pub mod Approval
