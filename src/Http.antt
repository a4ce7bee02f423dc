-- ===== src/Http.antt =====
-- Texts in http.c: the encoding of URIs and the escaping of HTML.
pub mod Uri
pub mod UriLaws
pub mod Html
mod Tests
