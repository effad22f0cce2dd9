-- ===== src/Json/RoundTrip.antt =====
-- What `json.Marshal` printed parses back.
pub mod Strings
pub mod Literals
pub mod Starts
pub mod Values
pub mod Whole
pub mod Numbers
