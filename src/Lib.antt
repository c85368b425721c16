-- ===== src/Lib.antt =====
-- BTPTesterCore: the host side of a tester for Bluetooth stacks. It talks to a device under test
-- by BTP frames over a socket.
--
-- A worker thread (pybtp/btp_worker.py) reads frames from the socket (pybtp/btp_socket.py,
-- pybtp/parser.py). A frame that is an event goes to the event handler, which runs the handler
-- of its service and opcode on the tester's view of the device (stack/*.py) and then releases the
-- listeners that wait for it; every other frame goes to a queue. Commands (pybtp/btp.py) send a
-- frame of a table and take the response from that queue.
--
-- Shared:
--   Prelude, Result, Exec   names, tests and lists over native numbers; exceptions as values;
--                           code that may raise over a mutable object
--   Struct, Hex, Dict       what the code uses of Python's struct, binascii, str and dict
--   Defs                    pybtp/defs.py, one constant for each of its names, in lower case
-- From the socket to the queue:
--   Parser                  pybtp/parser.py: dec_hdr, dec_data, enc_frame
--   Socket                  pybtp/btp_socket.py: BTPSocket.read
--   Worker, Worker/Rx       pybtp/btp_worker.py: send, read, send_wait_rsp; _rx_task
-- The tester's view:
--   Address, Gap            stack/gap.py: BleAddress, Gap and what it holds
--   GattDb, Gatt            stack/gatt.py: GattDB, Gatt and GattValue
--   GattCl, Mesh            stack/gatt_cl.py, stack/mesh.py
--   Stack                   stack/stack.py and stack/l2cap.py
--   Waiting                 stack/common.py: wait_for_event, and the waits of stack/gatt_cl.py
--   Types                   pybtp/types.py: the names of the settings
-- pybtp/btp.py:
--   Uuid, Ad, Decode        UUID text, advertising data, discovery responses
--   Events                  the event handlers; Events/Handler is BTPEventHandler
--   Text8                   bytes.decode as the names of devices use it
--   Commands                the tables, the check of responses, core and GAP commands, and what
--                           the other commands make of their arguments (Args, Db)
--   Commands/Gatts          the GATT server: gatts_*, gatt_server_fetch_db
--   Commands/Gattc, GattCl  the GATT client: gattc_* with their responses, gatt_cl_*
--   Commands/L2cap, Mesh    L2CAP and Mesh
-- testcases/:
--   Testcases/Bench         two devices, each with its worker and event handler; futures
--   Testcases/Utils, Procedures, Skips    utils.py and BTPTestCase.py
--   Testcases/Gap, Gatt     GapTestCase.py and GattTestCase.py
-- defensics/:
--   Defensics/Cases, Automation, Server    testcase_handler.py, btp_automation_handler.py and
--                           do_POST of instrumentation_server.py: the steps in front of a fuzzer's
--                           cases, its jobs and its requests; Turns has their theorems
--   Examples                the theorems at concrete inputs
--
-- Functions keep the names that they have in the source, classes become records, and methods that
-- change an object return the changed record. Code that raises returns a Result, or runs in Exec,
-- which keeps what was written before the raise. Bytes are lists of numbers, text is a list of code
-- points; where a value must be a byte the theorems say so. Log messages are left out.
--
-- Loops over a list are structural. The receive loop of `Socket.read` runs on fuel, and fuel above
-- the length of each part of a frame is enough on a connection that stays open; the loop of
-- `parse_ad` has fuel above the length of its data, which is always enough. The socket delivers a
-- list of chunks, so that every way in which a stream can be cut is covered; after the last chunk
-- comes the timeout. Threads are sequences of steps: the frames that the receiving thread reads,
-- and the states that the looks of a waiting test case find. `list(set(a) - set(b))` has no fixed
-- order in Python; it is a parameter `reorder`.
--
-- A test case runs in Exec over both devices. The frames that a device sends between two steps of
-- the test (a command, the making of a future, a wait) are one entry of `arrivals`, which may hold
-- any frames; a response that comes while its command waits stands in the entry in front of it.
-- A wait for futures ends when its entry has been received: what is not done by then has timed
-- out.
--
-- A text of digits is taken to have no blanks, sign or underscores, which int() would skip. While a
-- command waits for a connection other threads may change the stack; that is not a part of the
-- command, whose own use of the stack there is the read of its GAP part.
--
-- A call with the wrong number of arguments is written out with the list of its arguments, and
-- raises TypeError. The fuzzer's jobs are turns of one loop, which run between its requests; a lock
-- that is held when a job asks for it is never released, since only the loop would do that.
-- socket.timeout and TimeoutError are different exceptions, as they are before Python 3.10.
--
-- Not modelled: the web socket, threads and timers as such, the waits for queues of
-- stack/common.py, the printing of GATT attributes, and the names of properties and permissions.
-- The restart of a device in front of a test case is a parameter. The boards and phones, the
-- application, the servers in front of the fuzzer's jobs and the continuous integration only use
-- this core or call the operating system.
mod Prelude
pub mod Result
pub mod Struct
pub mod Hex
pub mod Defs
pub mod Parser
pub mod Address
pub mod Uuid
pub mod Socket
pub mod Dict
pub mod Gap
pub mod Types
pub mod Defensics
pub mod Testcases
pub mod Text8
pub mod Waiting
pub mod GattDb
pub mod Gatt
pub mod Decode
pub mod GattCl
pub mod Mesh
pub mod Stack
pub mod Exec
pub mod Events
pub mod Commands
pub mod Worker
pub mod Ad
pub mod Examples
