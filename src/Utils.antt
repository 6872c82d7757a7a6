-- ===== src/Utils.antt =====
-- utils/strings.go: the helpers that shorten, mask and pad texts.
pub mod Strings
pub mod Lengths
mod Tests
