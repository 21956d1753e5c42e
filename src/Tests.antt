-- ===== src/Tests.antt =====
-- Concrete runs of the models, and each theorem applied at a concrete input.
mod Config
mod Shutdown
mod Blkid
mod Datavol
mod Dhcp
mod DhcpClient
mod Module
mod Metadata
mod Document
mod Supervise
mod Mount
mod Nethub
mod Power
mod Control
mod MountInfo
mod Iso9660
mod Init
mod Status
