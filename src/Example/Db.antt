-- ===== src/Example/Db.antt =====
-- examples/cpp_cb/route_guide/helper.cc: the parser of the file of features.
pub mod Numbers
pub mod Parser
pub mod Print
pub mod Cursor
pub mod Entries
pub mod RoundTrip
pub mod Steps
pub mod Returns
pub mod File
