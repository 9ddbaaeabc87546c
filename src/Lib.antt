-- ===== src/Lib.antt =====
-- A verification development for the second stage boot loader of dalek, the C code in
-- bootloader/stage2/. The loader runs on a 32-bit PC in protected mode with no system below it. Its
-- parts, and how they interact:
--
-- - Strings (strings.c) is used by every other part. Text is bytes with a terminator.
-- - Memory (memory.c, include/boot.h, include/memory.h): block operations, the choice of a pool from
--   the BIOS memory map, and the allocator. The screen scrolls with memcpy; the register of devices
--   allocates.
-- - Timer (timer.c): the tick interrupt, a table of periodic callbacks, and sleeping. The floppy driver
--   stops its motors from a callback.
-- - Io (io.c): devices are registered under a name and called through a table of methods.
-- - Keyboard and Keymap (devices/keyboard): an interrupt handler turns scan codes into keys and puts
--   them into a ring, which a blocking read empties.
-- - Screen (devices/screen): text is put on a page of 80 by 25 cells with a cursor, and a write obeys
--   ANSI sequences; the attributes of a sequence are read with strtol.
-- - Floppy (devices/floppy): the start of the drives, the calibration, seeks, transfers with retries, and
--   the motor.
-- - Interrupts (idt.c, irq.c): the descriptor table, and the handlers of the interrupt lines, of which
--   the timer, the keyboard and the floppy driver each install one.
-- - Fat (filesystems/fat): what the first sector of a device says of a file system.
-- - Stdio (stdio.c): lines that are read from the device stdin with an echo, formatted output to the
--   device stdout, and messages.
-- - Fs (fs.c): the file systems that are registered, and the one that is the root.
-- - Cli (cli.c): the commands that are registered, and the loop that reads a line with gets, takes it
--   apart with strsplit and calls a command.
-- - Commands (commands/): what the commands do with the devices, the root and the screen.
-- - Modules (modules.c): the parts register a function for the start, and some one for the end. Main
--   (main.c, panic.c): what is printed at the start, and the halt.
--
-- How the state and the operations correspond to the code. A module is named for its file, a definition
-- for the C function or variable, and a comment names the function where one has several definitions: a
-- loop of a function is a definition of its own (write_loop of screen_write), and so is a case of a
-- switch (put_char and backspace of screen_putc). Global variables are records that the functions take
-- and return: Keyboard, Screen, Timer, Heap and Floppy. errno is an argument and a result where a
-- function sets it. The files:
--
-- - Base: shared helpers. Base.Tests has the Boolean tests, Base.Lists lists under native numbers,
--   Base.Fault the do notation of code that may leave an object, Base.Int signed results. Errno has
--   include/errno.h.
-- - Strings.Text, .Compare, .Search, .Copy, .Reverse, .Number and .Parse have the functions;
--   Strings.Number.Numeral, .Digits and .Print and Strings.RoundTrip have proofs on printed numbers, and
--   Strings.Parse.Total that strtol returns. Strings.Number.Spelled says what a numeral is without the
--   code, and the specifications of Stdio and Commands use it; Strings.Parse.Digits is the same for
--   strtol. A pointer to a string is the list of the bytes from it to
--   the end of its object; Strings.Buffer has writes.
-- - Memory.Blocks, .Pool and .Heap follow memory.c in that order. Main memory is a function from
--   addresses to bytes; the nodes of the allocator are a function from addresses to nodes, so that two
--   nodes do not overlap. Memory.Heap.Lists, .Allocate and .Restore have the proofs.
-- - Timer has timer.c; Timer.Tasks, .Ticks, .Late and .Register have the proofs.
-- - Io has io.c and Io.Register its proofs. The methods of a device are functions of any state.
-- - Keyboard has keyboard.c. Keyboard.Queue is its specification, a bounded queue of keys, and
--   Keyboard.Ring, .Handler and .Reads relate the two.
-- - Screen has the cursor and the page of screen.c, Screen.Ansi the sequences and screen_write, and
--   Screen.Cells, Screen.Cursor and Screen.Ansi.Attributes, .Writes and .Text the proofs.
-- - Floppy.Geometry, .Seek, .Status, .Dma, .Motor, .Wait and .Transfer are the functions of floppy.c,
--   with their proofs, except those of transfers, which are in Floppy.Transfer.Answers, .Retries and
--   .Blocks; Floppy.Transfer.Served says what a read asks of the hardware. Floppy.Controller is the
--   controller on lists of values and interrupts, Floppy.Calibrate the reset and the calibration, and
--   Floppy.Start the start and the end, with proofs in their child modules.
-- - Interrupts has idt.c and irq.c, and Interrupts.Gates and .Lines the proofs. Fat has the computed part
--   of fat_get_handle and Fat.Layout its proofs; Fat.Sector reads and decodes the first sector.
-- - Strings.Split has strsplit on an array of offsets into one object, as the command line uses it;
--   Strings.Split.Words is what a split is meant to give, and .Rows, .Loop and .Lines have the proofs.
-- - Stdio has getc and gets, Stdio.Format the reading of a format and the conversions, and Stdio.Print
--   vprintf, printf and log. The interface Stdio.Terminal says what the proofs rely on of the two
--   devices, and Stdio.Console is a terminal on two lists. Stdio.Edits says what a line of keys means,
--   with the proofs in Stdio.Lines; Stdio.Directives and Stdio.Formats say what a format means, with the
--   proofs in Stdio.Conversions, .Shows, .Logs, .Leaves and .Widths.
-- - Fs has fs.c and Fs.Mounts its proofs; a file system is a record of functions of any state.
-- - Cli has cli.c; Cli.Find, .Rows, .Rounds and .Runs follow a line from the keys to the command. The
--   endless loop of cli_start is a number of rounds.
-- - Commands.Texts has echo.c, version.c, clear.c, devices.c and halt.c, Commands.Disk read.c and
--   filesystem.c, Commands.Machine memory.c, reboot.c and test_timer.c, and Commands.Chainload
--   chainload.c, whose jump is a result; Commands.Echoes, .Dumps, .Boots and .Calls have the proofs.
-- - Modules has modules.c, on the two arrays that the linker makes, Modules.Order the order of the
--   calls, and Modules.Devices screen_init and kb_init. Main has panic.c and
--   the part of main.c behind the start of the interrupts, and Main.Panics what a panic shows. A panic
--   that shows its text gives that it halts, with the state it leaves. Interrupts.Exceptions has the
--   handler of the exceptions and Interrupts.Exceptions.Reports its proofs.
-- - Tests in each part evaluates the definitions, and applies the theorems, at concrete inputs.
--
-- What stands outside is an argument: the byte at the keyboard's port, the interrupts in the order in
-- which they come, the values of the controller's registers in the order in which they are read, and
-- the answers of the floppy controller. A local array that is not set is an argument too: what the stack
-- holds. A double is what ftoa_s makes of the buffer for it, and for Strings.Float, which has ftoa_s, a
-- type with the product with ten and the whole part, which the cast to a long takes if it has 32 bits;
-- Strings.Float.Exact has the proofs. Writes to ports are lists, and what the hardware puts in the buffer
-- of the DMA is a function of them. Inline assembly and the port functions are not modelled.
--
-- Numbers are natural numbers with the wrap of their C type written out; a negative result is an integer
-- of Base.Int. Pointers to the end of a block do not wrap. The result none is a fault: an access outside
-- an object, a panic of the floppy driver, whose text is left out, or fuel that is used up. Loops over lists recurse on them. Fuel is used in seven
-- places. The loop of screen_write has one unit for every byte and one more, and that of
-- screen_ansi_attr one for every byte of the parameters and one more: every turn moves on. The walks of
-- the allocator take their fuel as an argument: any above the length of the list will do. sleep has one
-- unit for every millisecond and one more: every turn is a tick. The loops of vprintf and strsplit have
-- one for every byte of their object and one more: every turn shortens what is left. gets takes its fuel
-- as an argument: any above the number of keys before the end of the line will do.
--
-- Not modelled: callbacks that change the table of tasks from inside the tick; the reads of the FAT
-- table and of the root directory; the messages that functions other than those of fs.c, modules.c and the
-- commands log; the calls at the head of main, which are those of other parts; the functions that load
-- the descriptor table; assembly, the first stage and the installer.
pub mod Base
pub mod Cli
pub mod Commands
pub mod Errno
pub mod Fat
pub mod Floppy
pub mod Fs
pub mod Interrupts
pub mod Io
pub mod Keyboard
pub mod Keymap
pub mod Main
pub mod Memory
pub mod Modules
pub mod Screen
pub mod Stdio
pub mod Strings
pub mod Timer
