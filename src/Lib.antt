-- ===== src/Lib.antt =====
-- EmberLite: the algorithms and the data structures of its C libraries.
--
-- The program is a set of small libraries for Linux boards. components/crypto computes checksums and
-- digests; core/runtime has a table-driven state machine and a registry of nodes; components/ppool is
-- a pool of threads on a queue of tasks; platform/hal opens, reads and writes devices. They do not call
-- each other: applications combine them.
--
-- Common holds what the models share: C arrays as lists, C strings, memcpy, int, words and their bits.
-- A C word is a native number, and every operation that can leave its range has the wrap-around written
-- out. A read or a write out of bounds, or through NULL, is the result `none` of a function.
--
-- Crypto/Crc models components/crypto/src/crc.c: a record for the static table and its flag, the
-- builders, and init, update, final and compute of the three checksums. Crypto/Crc/Spec has the bitwise
-- registers, which do not use a table.
--
-- Crypto/Sha256 and Crypto/Md5 model sha256.c and md5.c there: the context, the loop of update over the
-- input, the padding of final and the compression of a block, which is in Transform. The loops of
-- update run on fuel, one step for each byte of the input; each round takes at least one byte.
-- Crypto/Blocks has what the two standards share: a message that is absorbed block by block, and the
-- padding. The specifications use the compression function of the code; that it is the standards' is
-- tested on known digests only.
--
-- Runtime/Fsm models core/runtime/src/fsm.c. An action is a parameter: it gets the machine and the rest
-- of the world, and returns both. Runtime/Fsm/Spec says which entry of the table decides.
--
-- Runtime/NodeRegistry models core/runtime/src/node_registry.c. A pointer to a record is its index, and
-- NULL is `none`. Runtime/NodeRegistry/Spec says what each call does to a list of records with
-- different names.
--
-- Ppool/Queue models components/ppool/src/ppool_queue.c: nodes at addresses, which malloc, a parameter,
-- hands out. The loops run on fuel, one step more than there are tasks. The int `len` is not bounded.
-- Ppool/Pool models ppool_init, ppool_add and ppool_destroy of ppool.c beside it: what malloc and the
-- pthread functions answer is an argument, and the world is the list of what is live, with the global
-- PPOOL_LOCK, which all pools share, beside it. Its queue is that of Ppool/Queue. The lock, the broadcast
-- and the unlock of ppool_add are logged with the queue at that moment. Ppool/Worker models the workers of
-- ppool_run on that queue as steps, one for what a thread does behind the lock or between two uses of
-- it, which follow each other in any order with those of clients that add tasks and broadcast; spurious
-- wake-ups and the return of a task's entry are steps of their own, which need not come. No thread
-- destroys the pool meanwhile.
--
-- Hal models hal_status_from_errno of platform/hal/src/hal.c, and Hal/Uart the wait for the line and
-- hal_uart_write of hal_uart.c there: what poll and write answer is a script, and the bytes that write takes
-- are sent. The loop runs on fuel, one step more than poll has answers. The mutex is left out: it guards
-- one read of the descriptor.
--
-- The other drivers are modelled over Hal/Sys: an operation is a tree of the calls that it makes of the
-- system, open, read, ioctl, malloc and the mutex among them, which goes on with any answer. The calls
-- are parameters. Hal/Sys says what is documented of their answers, what the process holds behind each
-- (descriptors, blocks of memory, the mutex, what was sent and read), and which calls are allowed: on a
-- descriptor that is held, a block that is held, a mutex in the state that the call needs. `Ensures` is
-- that an operation makes only such calls, ends whatever is answered, and leaves what its postcondition
-- says; Hal/Sys/Rules has its rules. `run` gives an operation a script of answers, and `serve` a
-- device. Loops over interrupted calls run on fuel: it is enough when signals interrupt fewer calls than
-- there are steps. A descriptor that is negative is `none`.
--
-- Hal/Handle has what the drivers repeat, with its specification in Hal/Handle/Spec and the loops in
-- Hal/Handle/Wait. Hal/I2c, Hal/Spi and Hal/Can model hal_i2c.c, hal_spi.c and hal_can.c; a CAN frame is
-- its sixteen bytes. Hal/Gpio and Hal/Pwm model hal_gpio.c and hal_pwm.c, with the files of sysfs that
-- Hal/Text writes; the float percentage of a PWM channel and its conversion are a parameter.
-- Hal/Input models hal_input.c, Hal/Onewire hal_onewire.c without the temperature, and Hal/Watchdog the
-- watchdog of hal_system.c. Hal/Uart/Config and Hal/Uart/Device model the rest of hal_uart.c: the attributes
-- of a line, as the flags of Hal/Termios, and the handle from its open to its close. The handles are
-- values: what an operation changes in one is part of its result.
--
-- Not modelled: the messages of the pool, hal_adc.c and the temperatures of hal_onewire.c,
-- which turn texts into floats, the timer and the clocks of hal_system.c, hal_usb.c and hal_i2s.c, which
-- call libusb and ALSA, the network device in components/netdev, logging, the example programs, and the
-- build.
pub mod Common
pub mod Crypto
pub mod Runtime
pub mod Ppool
pub mod Hal
