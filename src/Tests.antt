-- ===== src/Tests.antt =====
-- The theorems at concrete inputs, by part.
mod Encode
mod Callback
mod Network
mod Secret
mod Exchange
mod Delivery
mod Tools
mod Paths
mod Traces
mod Objects
