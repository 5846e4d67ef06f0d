-- ===== src/Lib.antt =====
-- CommandStation-EX, the DCC command station: a model of its core and the theorems that hold of it.
-- Paths are from the repository's root.
--
-- The program turns commands into packets for the rails. What is known of a loco stands in its slot
-- (LocoSlot); packets wait in two queues (DCCQueue), from which the next one is handed to the waveform
-- (DCCWaveform), whose interrupt sends it bit by bit. Messages to and from network clients pass
-- through rings of bytes (RingStream). DCC.cpp sets the speeds and functions in the slots and reminds
-- the locos of them; DCCACK programs decoders on a track of their own and reads their replies from the
-- current; MotorDriver switches a track off at an overload. These are the modules here:
--
--   Base      shared names, lists and Booleans over the native numbers, bytes, integers
--   Chain     linked structures: a store of `next` pointers, the list that a pointer leads through,
--             and the loops over it (Chain.Loops)
--   Ring      RingStream.cpp and RingStream.h. `write`, `mark`, `commit`, `read`, `flush`, `peek` are
--             the methods of those names; `read_count` is `count`, `free_space` is `freeSpace`, `print_flash`
--             is `printFlash` and `read_raw_byte` is `readRawByte`. Ring.Window and Ring.Frame say which bytes
--             the ring holds, the other modules what each operation does to them.
--   Waveform  DCCWaveform.cpp and DCCWaveform.h. `interrupt_handler`, `interrupt2`, `schedule_packet`
--             and `promote_pending_packet` are the methods of those names; `preamble_bit` and `packet_bit` are
--             the two halves of `interrupt2`, and `wait_promotion` the wait in `schedulePacket`.
--   Queue     DCCQueue.cpp and DCCQueue.h. Queue has the slots, the links and the private methods,
--             Queue.Schedule the public ones, `schedule_next` for `scheduleNext` and so on; Queue.Spec
--             describes them on lists of entries, with no pointers. In Queue.Schedule, Rep is the invariant
--             of the store and Refine the relation to the lists.
--   Loco      LocoSlot.cpp and LocoSlot.h. `get_slot`, `prepare`, `forget` and `forget_all` are the
--             methods of those names; `unchain` is the first half of `forget`. Loco.Table has the table of
--             locos that they implement.
--   Dcc       DCC.cpp, packets for locos and the clock: `set_throttle_dcc` is `setThrottleDCC`, `write_cv_byte_main`
--             is `writeCVByteMain` and so on; Dcc.Address, Dcc.Cv, Dcc.Speed, Dcc.Packet and
--             Dcc.Clock read them, and Dcc.Throttle says what is sent.
--   Ack       DCCACK.cpp and DCCACK.h, and in Ack.Programs the programs of DCC.cpp with the calls that
--             start them. `exec` is one turn of the switch in `loop`, `callback_in` the switch in `callback`,
--             `check_ack` of Ack.Check is `checkAck`. Ack.Decoder describes the programs without time, Ack.Simulation
--             and Ack.Session relate the two, Ack.Reading and Ack.Address evaluate programs for
--             a decoder with known CVs, Ack.Delivery, Ack.Pulses and Ack.Leaving treat the end of a
--             program, the pulse and the loop, and Ack.Reports and Ack.Retries put these
--             together, for a decoder that answers and one that does not.
--   Drive     the rest of DCC.cpp, on the slots of the locos and the queues: `set_throttle`, `set_throttle2`,
--             `estop_all` and `estop_lock` here, functions in Drive.Functions, `issue_reminders` and
--             `issue_reminder` in Drive.Reminders, `set_momentum` and the steps of a speed in
--             Drive.Momentum, `set_accessory` and `set_extended_accessory` in Drive.Accessory, and in
--             Drive.Consist `forget_loco` and the methods of DCCConsist.cpp. Drive.Kept, Drive.Walk, Drive.Pass, Drive.Bits,
--             Drive.Switched, Drive.Stop, Drive.Moved, Drive.Sound, Drive.Forgetting and Drive.Commands hold
--             the proofs.
--   Power     MotorDriver.cpp and MotorDriver.h: `set_power` is `setPower`, `check_power_overload` is
--             `checkPowerOverload`, with one function for each of its states.
--
-- Pointers are numbers, a null pointer is `none`, and the fields behind the pointers are functions of
-- the store, so that aliasing is modelled. Bytes are numbers with their masks and shifts written out.
--
-- Bounds and fuel. A loop over a chain takes as its fuel the number of slots that were ever created;
-- each slot is in a chain at most once, so this is enough, and the theorems on the operations have
-- that as part of the invariant. `read` takes a fuel of two, since the marker of a text in flash is
-- followed by a byte of the text or of the ring. The loop of the interpreter takes a fuel above the
-- length of the program; a decoder's reply needs at most 65 operations, which is the fuel of an
-- evaluation. The wait in `schedule_packet` takes as its fuel the interrupts that come; as many as
-- take up the pending packet are enough. Memory for a loco slot may be refused, which is a parameter;
-- for a queue slot it is always given. The loops along a consist take the number of created slots as
-- their fuel, with no theorem that this is enough.
--
-- Not modelled: the hardware (timers, pins, buses, displays, network chips) and the parts of the program
-- that this library does not reach yet, such as the parser and the automation. Diagnostic output is
-- left out everywhere. `millis()` is an argument that stays the same throughout a call. The flash
-- memory of texts and the printing of it are parameters.
pub mod Base
pub mod Chain
pub mod Ring
pub mod Waveform
pub mod Ack
pub mod Drive
pub mod Power
pub mod Dcc
pub mod Loco
pub mod Queue
