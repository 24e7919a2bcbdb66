-- ===== src/Broker.antt =====
-- sandbox/broker.py: the host-side request broker, one module for each part.
pub mod Redact
pub mod Bucket
pub mod Checked
pub mod Numbers
pub mod Tests
pub mod Policy
pub mod Host
pub mod Tokens
pub mod Validate
pub mod Fetch
pub mod Redirect
pub mod Public
pub mod Payload
pub mod Config
pub mod Search
pub mod Requests
pub mod Safety
pub mod Handle
pub mod Init
