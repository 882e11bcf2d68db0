-- ===== src/Lib.antt =====
-- The Pugputer 6309 emulator: the HD6309 processor of simulator/src, and the system bus, the UART,
-- the SD card, the S-record loader and the FAT16 image builder of simulator/src/pugputer, as a model
-- that runs, with its correctness theorems.
--
-- The program. `class CPU` (simulator/src/hd6309_core.cpp, hd6309_opcodes.cpp) executes HD6309
-- instructions over two callbacks, a byte read and a byte write. `class SystemBus`
-- (simulator/src/pugputer/system_bus.cpp) supplies these callbacks: it decodes an address into a
-- mapped device or into RAM behind four bank registers, and after each instruction it ticks the
-- devices and drives the interrupt lines of the CPU from their outputs. `UartR65C51` and
-- `SdCardDevice` are such devices, behind the interface `IDevice`; `load_srec_file` fills the memory
-- of the bus from a file before the program starts, and `build_fat16_image` makes the disk image that
-- the SD card serves.
--
-- The model. A member function of `CPU` is a function `Cpu S → A × Cpu S` (Cpu.Monad), where `S` is
-- the state behind the callbacks; a read may change it. Registers are natural numbers, each cast
-- of the source is written out as a remainder, and signed values are the integers of Base.
--   Base               the shared names, the tests, the casts (Base/Int), `switch` statements
--                      (Base/Switch), and bit masks (Base/Bits)
--   Cpu/Types          simulator/src/hd6309_types.hpp and the data members of `CPU`
--   Cpu/Flags, Alu, Rmw, Memory, Registers, Indexed, Interrupts, Transfer
--                      the parts of hd6309_core.cpp, a function for each member function
--   Cpu/Handlers       the macros and case bodies of hd6309_opcodes.cpp: a body that three macros
--                      share for the direct, indexed and extended mode is one function of the
--                      effective address (`alu8_at`), and each macro applies it (`alu8_dir`)
--   Cpu/Opcodes        the three `switch` statements, as tables of an opcode and its handler
--   Cpu/Run            `reset`, `step`, `run`, the breakpoints and the lines
--   Cpu/RamBus         the flat RAM bus of simulator/src/hd6309_api.cpp
--   Cpu/Valid          the register ranges and what each member function keeps of them, up to
--                      `step` and `run`
--   Cpu/FlagBits, Compare, Stack, Masking
--                      the condition codes, comparisons and branches, pushes and pulls, and the
--                      masking of interrupts
--   Bus                device.hpp, rom_device.hpp, system_bus.hpp and system_bus.cpp: the state and
--                      the mappings (Bus/Types, Bus/Access), reset, step, run and the interrupt
--                      lines (Bus/Control), and in the other children the proofs
--   Srec               srec_loader.hpp and srec_loader.cpp: characters and fields (Srec/Text), a
--                      line (Srec/Parse), the loop over the lines (Srec/Load), and the proofs
--   Uart               uart_r65c51.hpp and uart_r65c51.cpp: the state and the timing (Uart/Types),
--                      the operations (Uart/Control), sequences of calls (Uart/Events), and the
--                      proofs
--   Sd                 sdcard_device.hpp and sdcard_device.cpp: the device (Sd/Card), its use by a
--                      driver (Sd/Stream), and the proofs
--   Fat                fat16_image.cpp: the layout of the volume (Fat/Geometry), the boot sector
--                      (Fat/Boot), the FAT and its chains (Fat/Chains), directory entries
--                      (Fat/Entries), the directories of the files' names (Fat/Tree), the clusters
--                      of all of them (Fat/Volume), and the proofs
--
-- Bounds and fuel. `run` and `SystemBus::run` are loops without a bound of their own: the model
-- gives them one round more than the budget. That is enough since a step of a CPU that is not
-- halted spends at least one cycle. No step spends more than 200,000 cycles: the longest is TFM
-- with 65,535 rounds of three cycles. The budget leaves room below 2^64 so that the sum does not
-- wrap around.
--
-- Parameters. The devices on the bus are states behind the operations of `IDevice`, which a
-- development for a device supplies; that they read bytes is the result type of `IDevice::read`. For
-- the CPU alone, the bus is any pair of callbacks that reads bytes, the result type of `ReadFn`. The
-- image file of the SD card is the three operations of `ImageFile`, with the laws `IsDisk` of a file
-- that keeps what is written to it. The lines of an S-record file are those that `std::getline` gives.
--
-- Not modelled: the second pass over the files of a FAT16 image, which links the entries and
-- copies the data; the video and sound devices, the host serial bridge and the front ends of
-- simulator/tools; the pointer tests of the C functions around `CPU`; the video card firmware in
-- vidcard/core; the third-party synthesizer; and the programs in assembly. The clock rates of the
-- UART, which are of type double, are whole numbers of Hz, and their quotients are rounded
-- exactly. An `int` that counts breakpoints or the cycles of one instruction is an unbounded
-- number. DIVQ has the mathematical quotient also for -2^31 by -1, where the C++ division is
-- undefined. The FAT has its size; a write past its end, undefined in the source, is an error.
pub mod Base
pub mod Srec
pub mod Uart
pub mod Sd
pub mod Fat
pub mod Cpu
pub mod Bus
