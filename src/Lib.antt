-- ===== src/Lib.antt =====
-- libusbp: a verification library for the C code of the USB library.
--
-- The program gives access to USB devices. Of its parts these are modelled, for Linux
-- and, where a bullet says so, for Windows:
--   * error objects (src/error.c): Error. An error is NULL or a block with a message and a list of
--     codes; the functions take over and give back the memory of the errors that they are passed.
--   * pipe IDs (src/pipe_id.c): PipeId.
--   * errors from error numbers (src/linux/error_linux.c): LinuxError.
--   * requests on a device node file (src/linux/usbfd_linux.c): Usbfd. The kernel is an argument:
--     the reply to a system call, or a function from the request to the reply.
--   * one asynchronous IN transfer (src/linux/async_in_transfer_linux.c): Transfer.
--   * asynchronous IN pipes (src/async_in_pipe.c): Pipe, a ring of transfers.
--   * the handling of completed requests (src/linux/generic_handle_linux.c): Events.
--   * sequences of calls on a pipe: Runs.
--   * generic handles (src/linux/generic_handle_linux.c): Handle, with timeouts and transfers;
--     Handle/Opening opens a handle to an interface.
--   * strings and devices (src/string.c, src/linux/device_linux.c): Device.
--   * lists of devices (src/list.c): Lists, for any kind of device, with the relation
--     Lists/Selects between what is found and what is listed; the search in one
--     (src/find_device.c): Devices.
--   * the wrappers of libudev (src/linux/udev_linux.c): Udev, with the conversions of sscanf that
--     they use in Scan, and Finding, with the searches for an interface and its tty. libudev is an
--     argument, a record of its answers, which do not change within one call.
--   * making a device and adding it to the list (src/linux/device_linux.c, src/linux/list_linux.c):
--     Listing; the list of the connected devices and the search by IDs (src/linux/list_linux.c,
--     src/find_device.c): Connected.
--   * generic interfaces (src/linux/generic_interface_linux.c): Interface; serial ports
--     (src/linux/serial_port_linux.c): SerialPort.
--   * errors from the error numbers of Windows (src/windows/error_windows.c, src/error_hresult.c):
--     Windows/Errors; hardware IDs and devices for Windows (src/windows/device_windows.c,
--     src/windows/device_instance_id_windows.c): Windows/HardwareIds and Windows/Device; the list of
--     the connected devices (src/windows/list_windows.c): Windows/Listing. What SetupAPI,
--     GetLastError and FormatMessage give is an argument, a record; a handle is a block.
-- A pipe creates, submits, finishes and cancels its transfers; a transfer asks the requests of Usbfd
-- and makes errors through LinuxError; the events of a handle complete the transfers of its pipe.
-- The functions keep their names without the prefix `libusbp_` and the name of the object. Base
-- holds the shared helpers, Print what `printf` prints, Samples the data of the tests.
--
-- Heap is the model of C's memory: a command is a function from the heap to a result and a heap, or
-- to `none`, which stands for undefined behaviour: a failed assertion, a free of what is not
-- allocated, a read outside an array. Each request for memory may succeed or fail, as the heap says
-- for every request, so the theorems hold however memory runs out. An object that the code passes by
-- pointer is a record with its addresses, and ownership is counted in blocks: `Moves h old new g`
-- says that between the heaps `h` and `g` exactly the blocks `old` were freed and `new` allocated.
-- `Returns P r` says that `r` is a result, so that no undefined behaviour was met, and satisfies `P`.
--
-- Loops are structural recursion, on the list that they walk or on the count that bounds them. The
-- loop of `start_endless_transfers` has fuel, one round more than there are transfers, and that it
-- is enough is part of the theorem about it. The loop of `generic_handle_events` recurs on the
-- kernel's answers. Characters are numbers; a format with its arguments is what it prints.
--
-- Functions that make an object in several steps are chains of `proceed` (Steps): each step runs only
-- where there is no error yet, and the end frees what is not passed on. What they return is told by
-- `Gets Q P owned`: an object that satisfies P and owns what was allocated, or an error for the
-- reason Q, and NULL. `Ends held k b` says that the command k frees the blocks held and returns b.
--
-- Not modelled: the part for macOS, which is another backend of the same interface, and of that for
-- Windows the interfaces, the handles, the transfers and the serial ports; the C++ header,
-- the installer, examples and tests. Of a function with output pointers the tests for
-- NULL are modelled where a pointer has a default value, and else the pointer is taken not to be
-- NULL. Which file descriptors are open is not modelled; closing a handle gives the descriptor that
-- it closes. The contents of the caller's buffers matter only for the results of a transfer. A
-- status of INT_MIN, which Linux never gives, has no negation as an `int`: it is undefined behaviour,
-- and the theorems about the completion of transfers exclude it. Threads are not modelled, since the library has no locks and
-- leaves them to its caller.
pub mod Base
pub mod Connected
pub mod Device
pub mod Devices
pub mod Error
pub mod Events
pub mod Finding
pub mod Handle
pub mod Heap
pub mod Interface
pub mod LinuxError
pub mod Listing
pub mod Lists
pub mod Pipe
pub mod PipeId
pub mod Print
pub mod Runs
pub mod Samples
pub mod Scan
pub mod SerialPort
pub mod Steps
pub mod Transfer
pub mod Udev
pub mod Usbfd
pub mod Windows
