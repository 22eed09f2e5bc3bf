-- ===== src/Ws.antt =====
-- src/ws: the Base64 of src/ws/base64_parser.c.
pub mod Base64
pub mod RoundTrip
