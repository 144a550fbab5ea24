-- ===== src/Examples.antt =====
-- Concrete instances of what the library takes as parameters, and runs on them.
mod Database
mod Strip
mod Keeping
mod Chatting
mod Signing
mod Recovering
mod Instances
mod Samples
mod Accounting
mod Serving
mod Issuing
mod Channels
mod Reaching
mod Guarding
