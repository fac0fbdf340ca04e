-- ===== src/Kernel.antt =====
-- kernel/src/kernel.c: `log`, which renders onto the screen.
pub mod Console
pub mod Cpu
pub mod Drawing
pub mod Format
pub mod Gates
pub mod Init
pub mod Line
pub mod Numeral
pub mod Panic
pub mod PanicText
pub mod Run
pub mod Start
mod StartTests
pub mod Structs
pub mod Terminal
mod Tests
