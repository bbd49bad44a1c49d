-- ===== src/Http.antt =====
-- clueapi/http: the values of requests and responses, and the codecs.
pub mod Multipart
pub mod Method
pub mod Status
pub mod Url
pub mod Chunks
pub mod Cookie
pub mod Request
pub mod Context
pub mod Tests
