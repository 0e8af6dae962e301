-- ===== src/Url.antt =====
-- `normalize_onec_publication_url` of onec_url_normalizer.cpp with the helpers of string_utils.cpp. The
-- network library is the interface `Inet`; `none` stands for the exception on a refused address.
pub mod Hosts
pub mod Parse
pub mod Normalize
mod Tests
