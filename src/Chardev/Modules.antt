-- ===== src/Chardev/Modules.antt =====
-- The init and exit functions of the four modules with a character device, each beside the
-- create_device that it calls.
pub mod Rand
pub mod Device
pub mod Interface
pub mod Keyboard
