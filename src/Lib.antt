-- ===== src/Lib.antt =====
-- The serial port library lib_sp, modelled and verified.
--
-- The program offers one interface, `iserial_port`, with an implementation for Linux and one for
-- Windows. A caller makes an object, hands it a property set by `init`, opens and closes the port
-- and sends data; a receiving thread reads the device and hands the data to the caller's
-- `irecv_data` object.
--
-- Files and the code that they model:
-- Params: include/serial_port/serial_port_interface.h, include/serial_port/serial_port_params.h
-- and src/serial_port_params.cpp. Enums and Props hold the enumerations and `SpProp`
-- (`serial_port_prop_`); Check holds `is_right`, `get_baud` and the tables of `init_map`.
-- Interface: the class `iserial_port` of include/serial_port/serial_port_interface.h as a record
-- of methods, and `sp_create` and `sp_release` of src/serial_port_interface.cpp. Contract is an
-- abstract port with three states and what it means to refine it, History what a client may then
-- rely on, where each call may depend on the codes before it (`Session`, `play`). Linux.Contract
-- and Win.Contract are the two classes as such records. The contract lets a client ask for a log
-- only in the first `init`, and on Linux asks it to name a receiver there, since `close` joins
-- the thread that `open` has made for it.
-- Example: example/shared/main.cc, the class `serial_port` and `main`, over any record of
-- methods; Example.Receiving is its `on_recv_data`.
-- Linux: include/serial_port/serial_port_linux_base.h and src/serial_port_linux_base.cpp. State
-- is the object, Termios what `set_port_params` does to the attributes, Port the methods (`init`,
-- `open_port` for `open`, `close_port` for `close`, `send`, `set_read_notify`, and the
-- constructor and destructor as `new` and `destroy`), Reader the loop of
-- `thread_recv_data_monitor`. Threads is the caller's thread beside the receiving one, a relation
-- between states that takes one access to shared state at a time, the destructor included. Live
-- is the threads that were created and not joined. Stream is about the bytes on the line, from
-- the data of `send` to what a receiver gets. Devices is `get_available_serial_port`, and
-- Devices.Listing the same function with every call that it makes.
-- Win: include/serial_port/serial_port_win_base.h and src/serial_port_win_base.cpp, in the same
-- manner. State is the object, Dcb the fields of the device control block, Port the methods (Open
-- is `open`, Send is `send`), Reader the loop of `thread_recv_data_monitor` with `read_data`.
-- Devices is `get_available_serial_port` as a loop over the devices, Devices.Listing the same
-- function with every call that it makes; Port.Handles is the ownership of the handles,
-- Port.Logging the name under which `init` asks spdlog for a logger. Port.Codes is about what the
-- code of `send` tells. Threads is the caller's thread beside any number of monitors in the
-- asynchronous mode. Stream is about the data that `send` hands to `WriteFile`; Port.Frame tells
-- what the other methods leave alone.
-- Effect: the monad of the methods and the rules for what they leave behind.
-- Utils: the helpers of include/utils.h and src/utils.cpp. Utils.Directory is `helper::get_cwd`,
-- Utils.Wide the conversions between wide and other texts, with the functions of Windows as a
-- parameter. Utils.Format is `helper::str_format` of include/utils.h and `get_version` of both
-- classes. Utils.Numbers is the conversions between whole numbers and strings of include/utils.h;
-- what they call, `strtol` and its kin, is written out from the C standard, with the width of the
-- type as a parameter.
-- Base: numbers, lists, signed integers and flag words. Tests: runs at concrete inputs.
--
-- How code becomes definitions. An enumeration is its `int` value, so that values of no
-- enumerator are covered; an `int` is an integer, and a conversion to an unsigned type is written
-- out. A flag word is the function of its bits. A method runs in a monad over the object, the
-- list of all system calls made so far, and the data handed to the receiver; it returns a value
-- or does not go on, since it waits for the mutex for ever or has no defined behaviour (as a join
-- of a handle that names no thread, or a read behind the end of a buffer). The second lock of a
-- `std::mutex` by its owner, which is not defined either, may also throw: on Windows a parameter
-- tells whether it does, and the catch block of `send` is then run. What the system answers is a
-- parameter, `Os` of each platform, which may depend on every call made before. Theorems that
-- need the system to behave as its manual says take that as a hypothesis. Catch blocks are left
-- out where nothing in the block throws; an exception that leaves a function that is `noexcept`
-- ends the program, which is then a method that does not go on.
--
-- Loops: the receiving loop is followed for any number of rounds, for as long as its flag is set;
-- the number of rounds is a variable of each theorem, so no fuel has to be chosen. The listing on
-- Windows is followed for a given number of rounds, and gives `none` (`unfinished` in
-- Devices.Listing) where it has not ended by then; one round more than there are devices is
-- enough, of which there are fewer than 2^32. The decimal digits of a number `n` are found with
-- fuel `n` + 1, one unit for each digit.
--
-- On Windows a timed wait may end in any way. In the relation between the threads time is left
-- out: a parameter tells whether the wait of `close` for the thread may end by its limit. The
-- wait of a monitor for the event of the device has no limit: it comes back only where the device
-- gives a signal, of which there is any finite number, a variable of the theorems. On Linux the
-- join in `close` is a step only where the receiving thread has ended.
--
-- Not modelled: the messages of `log`, the conversions of include/utils.h to and from floating-
-- point numbers (calls of the standard library) and those of MFC texts, the pauses of the example
-- program, the copies of spdlog and fmt under ext, and the resource and build files.
pub mod Base
pub mod Effect
pub mod Params
pub mod Interface
pub mod Linux
pub mod Win
pub mod Utils
pub mod Example
mod Tests
