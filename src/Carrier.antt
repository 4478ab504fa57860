-- ===== src/Carrier.antt =====
-- carrier/: the friends, messages, invitations and file transfers of carrier/IOEX_carrier.c.
pub mod CString
pub mod Files
pub mod Friends
pub mod UserInfo
