-- ===== src/Vtk.antt =====
-- source/file_formats/vtk: the reader of legacy and XML VTK files.
pub mod Error
pub mod Types
pub mod Sizes
pub mod Workers
pub mod Range
pub mod Base64
pub mod Segment
pub mod Cache
pub mod Blocks
mod Tests
pub mod Tokens
pub mod Registry
pub mod DatasetSpec
pub mod Legacy
pub mod Scan
pub mod Action
pub mod Ascii
pub mod Payload
