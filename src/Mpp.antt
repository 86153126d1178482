-- ===== src/Mpp.antt =====
-- src/routeweiler/rails/_mpp_http.py: the wire format of the Machine Payments Protocol.
pub mod Base64
pub mod Jcs
pub mod Params
pub mod Envelope
pub mod Expiry
pub mod Fields
pub mod Credentials
pub mod Built
pub mod Receipts
pub mod Tempo
pub mod Spt
