-- ===== src/Strings.antt =====
-- The string functions of bootloader/stage2/strings.c, one module for each group. A `char *` that is
-- only read is the list of the bytes from the pointer to the end of its object; `none` is a read or
-- a write outside the object.
pub mod Text
pub mod Compare
pub mod Search
pub mod Split
pub mod Buffer
pub mod Copy
pub mod Reverse
pub mod Float
pub mod Number
pub mod Parse
pub mod RoundTrip
mod Tests
