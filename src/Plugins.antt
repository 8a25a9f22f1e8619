-- ===== src/Plugins.antt =====
-- plugins: the builder of a source's pipeline, and built-in plugins.
pub mod Tlp
pub mod Builder
pub mod Http
pub mod Allowlist
pub mod JsonParser
pub mod Loader
pub mod TxtExtractor
pub mod CsvParser
pub mod Databases
pub mod Defang
mod Tests
mod TextTests
mod LoaderTests
