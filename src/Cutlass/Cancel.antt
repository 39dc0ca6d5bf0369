-- ===== src/Cutlass/Cancel.antt =====
-- How the bytes that crates/atomr-accel-cutlass/src/plan_cache.rs writes are read back.
mod Prefix
mod Words
mod Names
mod Epilogue
pub use Words.{Fit, fit, none_left, words, words-same, nth}
pub use Names.{
  dtype-same, arch-same, last_arch-same, conv_layout-same, kind-same, grouped-same, layouts_text,
  layouts-same, arch_text, types_text, types-same,
}
pub use Epilogue.{alpha, beta, epilogue-same}
