-- ===== src/Commands.antt =====
-- The commands of bootloader/stage2/commands/: each on `stdout`, what the stack holds, the number of its
-- arguments and the arguments. The byte that a command returns for -1 is 255.
pub mod Texts
pub mod Disk
pub mod Chainload
pub mod Machine
pub mod Calls
pub mod Echoes
pub mod Dumps
pub mod Boots
mod Tests
mod Machines
