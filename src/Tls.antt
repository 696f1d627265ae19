-- ===== src/Tls.antt =====
-- Readers of captured TLS traffic: record framing and the ClientHello.
pub mod Record
pub mod Histogram
pub mod Hello
pub mod Capture
pub mod Shapes
pub mod Group
