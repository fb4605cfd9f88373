-- ===== src/Tests.antt =====
-- Runs of the models of AppChat_Again/Pods/nanopb and of fbase64.c on concrete inputs, and the
-- theorems at such inputs.
pub mod Integers
pub mod Streams
pub mod Fields
pub mod Members
pub mod Text
pub mod Messages
pub mod Nested
pub mod Required
