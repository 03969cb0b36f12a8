-- ===== src/Lib.antt =====
-- libfreespace: the sensor getters, the table of devices, the Linux backends on libusb and
-- on hidraw, and the Windows backend.
--
-- Parts, and the code that each one is about:
--   Motion       common/freespace_util.c: the getters of a MotionEngine packet. `locate_*` is the
--                switch of a getter and `get_*` the whole getter. Floats are a parameter.
--   DeviceTable  common/freespace_deviceTable.c, and lookupDevice of linux/freespace.c.
--   Hotplug      linux/linux_hotplug.c: the uevent socket and its settling delay.
--   Usb          linux/freespace.c. Types has the structures, Table the device pointers (add, remove,
--                findDeviceById), Scan scanDevices, which polls Hotplug and looks devices up in
--                DeviceTable; Receive the transfer callback and the termination of transfers, Queue
--                their start, reading, flushing and the change of callbacks; Session opening, closing
--                and listing; Send the sending; Poll the timeouts and file descriptors.
--   Hidraw       linux/freespace_hidraw.c, built without LIBFREESPACE_THREADED_WRITES. Types has the
--                structures, Table the device pointers and the bitmap of ids, Session the start, the
--                end, opening, closing and disconnecting, Scan the probe of a device, the scan of /dev
--                and the inotify events, Listing freespace_getDeviceList, Io reading and sending, Poll
--                freespace_perform; Keep and Reach are about the invariant. Writer is the background
--                writer that LIBFREESPACE_THREADED_WRITES adds, on its own.
--   Win32        win32/freespace_deviceMgr.c, win32/freespace_device.c, win32/freespace_discoveryDetail.c
--                and win32/freespace_discovery.c. Types has the structures, Close the closing of a
--                device, Open its opening, Receive the reads that are kept going and the service of a
--                device, Send the sending, Read reading and flushing, Discovery addNewDevice and the
--                changes behind a scan, Match the search of DeviceTable, the loop over what the
--                system lists and checkDiscovery, which calls it, Thread the hidden window, Library
--                the start, the end and freespace_perform, which calls checkDiscovery and then
--                Receive for each device. Calls has the calls that name a device by its id, and Reach
--                the states that sequences of calls lead to. A pointer to a device is its id, and one
--                to an interface or a send its index in the device.
--   Slots        the arrays of device pointers that both backends keep, and the search for a free slot.
--   Common, Errors  numbers, lists and tests that the parts share, and the error codes.
--
-- State is passed explicitly. A pointer to a device is the entry of the table with its id, and on
-- hidraw the index of its slot; functions that work on one device get that device and return it.
-- What libusb and the system return are
-- arguments, what the code does to them and the calls of the user's callbacks are returned in order.
-- User callbacks do not call the library. Numbers of a device's memory are natural numbers.
--
-- Fuel: the search for a free slot has 16 rounds, one for each slot, and the loop over received
-- transfers has 9, one for each slot of the queue and one for the test that ends it. The loops of
-- freespace_perform on hidraw have 17 rounds, one for each device and one for the test that ends
-- them; the code's loop does not end if poll counts more than it stores, and then the fuel does not
-- suffice. The loops over write jobs get their fuel as an argument.
--
-- On Windows, functions that find a device by its id are given on the device that is found, and in
-- Win32.Calls by the id.
--
-- Behaviour of the code that C leaves undefined has no result here: a write of a seventeenth device
-- behind the array of win32/freespace_deviceMgr.c, which the code does not prevent, a read of a
-- device that freespace_exit has freed, and the use of a freed write job are each a value of their
-- own, behind which nothing goes on.
--
-- Not modelled: what closing a device on libusb does to the transfers of other devices that end while
-- it waits for its own, the message loop of the hidden window on Windows and its class, the unique
-- ids that are made of device paths, which are numbers here, linux/darwin_hotplug.c, the locks and the thread
-- of the background writer, its part in disconnecting and closing, the loop that empties a hidraw
-- device that is opened, and the codec, which common/setupMessages.py generates.
pub mod Common
pub mod Errors
pub mod Slots
pub mod Motion
pub mod DeviceTable
pub mod Hotplug
pub mod Usb
pub mod Win32
pub mod Hidraw
mod Tests
