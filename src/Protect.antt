-- ===== src/Protect.antt =====
-- src/detection: the protection modules, over what they share (`Protect/Watch`).
pub mod Watch
pub mod Udp
pub mod Icmp
pub mod Tcp
pub mod Http
