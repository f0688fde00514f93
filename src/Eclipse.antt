-- ===== src/Eclipse.antt =====
-- source/file_formats/eclipse: the reader of Eclipse unformatted binary files.
pub mod Words
pub mod Text
pub mod Record
pub mod Index
pub mod Load
pub mod Deck
mod Tests
