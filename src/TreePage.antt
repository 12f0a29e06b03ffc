-- ===== src/TreePage.antt =====
-- src/wot_buf_mgr/tree_page.h and tree_page.cc.
pub mod Memory
pub mod Layout
pub mod Entries
pub mod Valid
pub mod Search
pub mod Update
pub mod Insert
pub mod Remove
pub mod Lookup
