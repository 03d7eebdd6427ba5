-- ===== src/ArgumentParser.antt =====
-- src/arg-parser.cpp and src/headers/arg-parser.h, class ArgumentParser.
pub mod Numbers
pub mod Parse
pub mod Ranges
