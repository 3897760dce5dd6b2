-- ===== src/Console.antt =====
-- console.c: the line editor behind the console, its display, and its read and write sides.
mod Tests
pub mod State
pub mod Display
pub mod Select
pub mod Complete
pub mod Keys
pub mod Intr
pub mod Read
pub mod Print
pub mod Ring
pub mod Line
pub mod Edit
pub mod Marks
pub mod Typing
pub mod Remove
pub mod Moves
pub mod Newline
pub mod Order
