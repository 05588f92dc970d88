-- ===== src/Adapters/Config.antt =====
-- internal/adapters/config/config.go: the file's format with its defaults, the rules that it
-- describes, and what makes a configuration acceptable. Reading and decoding YAML are arguments.
pub mod Wire
pub mod Build
pub mod Check
pub mod Sound
