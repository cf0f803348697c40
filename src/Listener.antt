-- ===== src/Listener.antt =====
-- apps/listener: a receiver that prints every frame it hears, with diagnostics of the reception.
pub mod Conf
pub mod Structs
pub mod Receive
pub mod Impulse
pub mod Print
pub mod Radios
pub mod Laws
pub mod Boards
pub mod Net
