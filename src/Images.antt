-- ===== src/Images.antt =====
-- The images that services and builds run: core/infrastructure/image.go, imagestream.go and
-- imagestream_reconciler.go, core/framework/image.go and core/kogitobuild/image_stream.go.
pub mod Version
pub mod Names
pub mod Streams
pub mod Reconcile
