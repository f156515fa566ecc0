-- ===== src/Router.antt =====
-- ScreeningRouter/main.cpp: the packet filter and address translator in front of the proxy.
pub mod Acl
pub mod Checksum
pub mod Memory
pub mod Transport
pub mod Pipeline
pub mod Filter
pub mod Header
pub mod Updates
pub mod Segment
pub mod Inbound
pub mod Reply
pub mod RoundTrip
pub mod Faults
pub mod Kernel
pub mod Arp
pub mod StartUp
pub mod History
