-- ===== src/Examples.antt =====
-- The theorems at concrete inputs, and tests of the definitions, in a module for each component.
mod Setting
mod Texts
mod Settings
mod Datagrams
mod Devices
mod Proxy
mod Connection
mod Serving
mod Startup
mod Waiting
mod Answers
