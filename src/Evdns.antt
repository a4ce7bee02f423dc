-- ===== src/Evdns.antt =====
-- The names in the packets of evdns.c: written by dnsname_to_labels, read by name_parse.
pub mod Labels
pub mod Names
pub mod Wire
pub mod ParseLaws
pub mod ReadLaws
pub mod TableLaws
pub mod Endings
pub mod LabelLaws
pub mod RoundTrip
pub mod Bounds
mod Tests
