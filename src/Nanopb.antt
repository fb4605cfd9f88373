-- ===== src/Nanopb.antt =====
-- AppChat_Again/Pods/nanopb: the Protocol Buffers codec, as the application's build configures it.
pub mod Types
pub mod Varint
pub mod FieldIter
pub mod IStream
pub mod Decode
pub mod OStream
pub mod Encode
pub mod Memory
pub mod FieldDecoders
pub mod FieldEncoders
pub mod RoundTrip
pub mod Run
pub mod Host
pub mod Extension
pub mod Defaults
pub mod Release
pub mod MessageDecoder
pub mod MessageEncoder
pub mod Nesting
