-- ===== src/Desktop.antt =====
-- veil-desktop/scripts: the installer of the desktop client.
pub mod Files
pub mod Install
