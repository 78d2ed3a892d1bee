-- ===== src/Lib.antt =====
-- Calc-U-59: the emulated hardware of the TI-58, TI-59 and TI-58C, and the shared code that runs it.
--
-- The program emulates the calculator's processor, the TMC0501, one instruction at a time
-- (Core/TMC0501.cpp), with its ROM (Core/ROM.cpp), its RAM chip (Core/RAM.cpp), the magnetic card
-- reader, the library module, the PC-100 printer, the keyboard matrix and the multiplexed display.
-- Each `step()` counts the digit counter down, decodes one 13-bit word, and runs a branch, a flag
-- operation, a keyboard scan, a control operation or an ALU operation; the peripherals hang on the
-- control operations, and the two-cycle memory operations are completed by the next ALU operation.
--
-- The machine (Core/TI59Machine.cpp) owns the processor and its memories and is what the hosts drive:
-- they press keys, read and write program steps and data registers, and step it. The shared code
-- paces it in batches of weighted cycles (Shared/Pacing.cpp) with the debugger's armed freezes
-- checked after each step (Shared/FreezeController.cpp), plays timed keys on it
-- (Shared/KeySequencer.cpp), reads and writes register lines, module images and magnetic card files
-- (Shared/CardFile.cpp), keeps the constant memory in a file (Shared/ConstantMemory.cpp) and writes a parsed state file into the machine (Shared/StateApplier.cpp).
--
-- Files and the code they model:
--   Base, Base/*: Boolean tests, C arrays as functions from the index, machine words and their bits.
--   Core/Alu: `mask_info`, `alu()`, `xch()`. The registers A to E are one store (`Regs`), so that a
--     destination that is an operand too is read as the loop goes on. Children: Frame, Digit,
--     Decimal (one round after another), Field (sum and difference), Shift, ShiftRight, Outside,
--     Aliasing, Exchange.
--   Core/Ram, Core/Rom: the two memories. A failed assertion of the source is `none`.
--   Core/Cpu/State: the data members of `TMC0501`, grouped by the part they belong to.
--   Core/Cpu/FlagOps: opcodes 0x00xx. Core/Cpu/Keyboard: opcodes 0x08xx, `pressKey`, `releaseKey`.
--   Core/Cpu/Control: opcodes 0x0Axx, which call Core/Cpu/CardReader, Core/Cpu/LibraryModule and
--     Core/Cpu/Printer (with the BUSY countdown and the line that is cut).
--   Core/Cpu/ExecAlu: `execALU()` and the deferred SCOM and RAM operations.
--   Core/Cpu/Multiplex: `postOperation()`, `getStepWeight()`.
--   Core/Cpu/Tracing: the frame ring, the breakpoints, `beginNextStep()`, `snapshotCPU()`.
--   Core/Cpu/Step: `step()`, `noteStepBoundary()`, `runDebugInjectedProgram()`.
--   Core/Cpu/Kept: what no instruction but a branch touches.
--   Core/Cpu/Reset: `reset()`, `loadConstants()`, `romKeycode()`, the buttons and the setters.
--   Core/Stepper: what the run loops need of the machine, as an interface with the law on weights;
--     Core/Machine/Laws fills it.
--   Core/Machine: the constructor, `reset()`, `step()` and the printer's switches of `TI59Machine`.
--     Core/Machine/Memory: program steps, data registers, the partition. Core/Machine/Running:
--     `stepN` and `stepUntilNextKeycode`, with their theorems in Core/Machine/Loops.
--     Core/Machine/Panel: the calls that are passed on. Core/Machine/Breakpoints: the set that the
--     breakpoint list implements.
--   Shared/Model: the facts of each model. Shared/Freeze: `FreezeController`.
--   Shared/Pacing: `runBatch`, `shouldSleep`; Shared/Pacing/Batches: many of them;
--     Shared/Pacing/Jitter: `BatchJitter` and the rate.
--   Shared/Runner: the cooperative run loop of Shared/EmulationRunner.cpp.
--   Shared/KeySequencer: a task and `step`; children Lane (the queues), Keyboard (the physical keys
--     and `advance`), Progress (the loop ends), Log and Holds (one key at a time), Play (a
--     lane over time).
--   Shared/TextUtil, Shared/Bcd: words and numbers in texts, and the line of a register.
--     Shared/TextUtil/Trim: white space, comments, case; Shared/TextUtil/Framing: what they leave
--     alone; Shared/TextUtil/Utf8: `isValidUtf8`.
--   Shared/ModuleImage: the program table of a library module. Shared/CardFile: `buildCardBank`.
--   Shared/CardText: the rows and header lines of a card's side. Children: Side (`SideBuilder`),
--     Reader (`parseCardTextV2`, `CardDocument`, the lines of a card), Version1 (`parseCardText`,
--     `encodeCardText`), Files (`encodeCardDocument`, `decodeCardFile`); for proofs Rows, Headers,
--     Words, Steps, Image, Sides, RoundTrip, Lines and Plain (what is written reads back), Values,
--     Building and Sound (what is read is a card bank).
--   Shared/StateFile: the parsed file; Shared/StateFile/Lines: its lines, by themselves;
--     Tokens (their pieces), Listing (the notations of a PROGRAM section, printed and read back),
--     Program (PARTITION lines in the machine).
--   Shared/StateApplier: `applyState`, `applyReload`, `powerOn`, `softReset`, `cleanReset`. Children:
--     Startup, Program, Resets.
--   Shared/ConstantMemory: the file of the TI-58C's memory. Children: Registers (one line),
--     RoundTrip (the register lines), Cues (the whole file, with its cue card), PowerOn (and into a
--     machine).
--   Modules named Laws, Timing and Waiting hold the theorems of their parent, Examples their runs.
--
-- Bounds. Numbers are natural numbers; the casts to 8, 16, 32 and 64 bits are written out. A C array
-- is a function from the index, its bound is in the conditions of the code that indexes it. The loop
-- of `alu()` has 16 rounds, as in the source. The search for the lowest set line has seven rounds,
-- one for each bit of the 7-bit mask it is given. `runDebugInjectedProgram` runs for the number of
-- steps its caller gives. `stepUntilNextKeycode` and `runBatch` have as many rounds as cycles are
-- asked for, since a step weighs at least 1; the loop of the key sequencer has three rounds for each
-- event that is left and three more, since no event takes more; a lane advances at most once for
-- each task; the deferred releases are as many as stand in the list. A pump at regular speed has
-- seven rounds: a schedule that lags by more than 100 ms starts over, so at most six batches of
-- 20 ms are due. The startup has as many rounds as steps, since a round makes one at least; the loops
-- of `trim`, `splitOn`, `splitWhitespace` and `isValidUtf8` move by a byte at least in a round and
-- have as many rounds as the text has bytes, or one more; a number's digits are no more than the
-- number plus one. The cycle counts of a batch, an `int32_t` in the source, exceed the target by
-- less than a step and are natural numbers here. Times are natural numbers of microseconds.
--
-- The host of the key sequencer is an argument: what a call does to it, and what it answers. The
-- random offsets of the jitter are an argument too, with the range that the generator draws from. The
-- cue card of a card file is an interface (`CueFormat`): how a line changes it, and its lines.
--
-- Not modelled: threads, mutexes and atomics (each operation is one step on the state, and the key
-- sequencer is in its cooperative mode); the texts of debug events and of errors; `takeDisplay()`,
-- `decodeBCD()` and `encodeBcd()`, which compute in floating point; the disassembler; the job
-- queue of the run loop; the loop over the sections of a state file and the cue card's lines, the session and the
-- debugger's views; the front ends, bridges and tools.
pub mod Base
pub mod Core
pub mod Shared
