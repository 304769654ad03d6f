-- ===== src/Tests.antt =====
-- Concrete inputs, and each theorem applied to one of them.
mod Sets
mod Ranges
mod Rates
mod Bytes
mod Udp
mod Parser
mod Http
mod Conn
mod Lru
mod Tcp
mod Handler
mod Firewall
mod Settings
mod Icmp
mod Xdp
mod Files
mod Logger
mod Capture
mod Baseline
mod Server
mod Main
mod Jammed
