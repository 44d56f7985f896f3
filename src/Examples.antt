-- ===== src/Examples.antt =====
-- The theorems applied to concrete inputs.
mod Data
mod Services
mod Configs
mod Reports
mod Daemons
mod Invocations
mod Codecs
