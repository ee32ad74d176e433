-- ===== src/VirtualBox.antt =====
-- drivers/virtualbox: machines that VBoxManage runs.
pub mod Vbm
pub mod Flags
pub mod Machine
pub mod Stopping
pub mod Retry
pub mod Dhcp
pub mod Version
pub mod Ports
pub mod Vtx
pub mod Starting
pub mod Creating
pub mod Making
pub mod Address
pub mod Disks
pub mod Output
pub mod Network
pub mod Removing
pub mod Reading
