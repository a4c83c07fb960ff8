-- ===== src/Luks.antt =====
-- xfce-linux/src/luks-unlock.py: the passphrase of an encrypted disk, typed into a virtual machine.
pub mod Keys
pub mod Screen
pub mod Serial
pub mod Exits
pub mod Libvirt
pub mod Qemu
pub mod WaitLive
pub mod Command
pub mod Typing
pub mod Timing
pub mod Prompt
pub mod Booted
pub mod Unchanged
pub mod Lease
pub mod Live
pub mod Brightness
pub mod Liveness
pub mod Boots
pub mod Markers
pub mod Tests
pub mod BootTests
