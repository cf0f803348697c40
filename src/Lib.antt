-- ===== src/Lib.antt =====
-- Verification of the applications of uwb-apps (apps/) and of their libraries (lib/).
--
-- The programs run on radio boards. A TDMA service calls the slot callbacks of an application, the
-- radio driver calls its completion callbacks, and a settings service calls it when the
-- configuration changes. These services, the kernel and the Bluetooth host are not in the
-- repository. A call of them is an entry of a trace (`Radio.Cmd`, `Ble.Call`), and what they return
-- is an argument of the model, so each theorem holds for every answer that they may give.
--
-- Text        decimal and hexadecimal numerals as printf writes them, and how they read back
-- Json        JSON documents with their text
-- Float       the floats of the programs, with their arithmetic as a parameter
-- Radio       the trace of calls; the mask on the start of a transmission
-- Tdma        what a slot callback reads, and the expressions that the callbacks share
-- Backhaul    lib/rtdoa_backhaul/src/rtdoa_backhaul.c and its header. Packet: the structures;
--             State: the globals and the queue; Copied: what a copy of the first bytes of a packet
--             leaves, with Whole about it; Send, Receive, Sensors and Print: the operations.
--             Wait is about the semaphore, Pool about the message buffers, Repeats about the filter
--             for repeated packets, Fifo about a bridge from its radio to its console, Send/Packing
--             about the packets that are sent, Delivery about the way from a tag to the console,
--             SensorFlags about the bits of the readings, and the children of Print about the two forms of the printed line and its numbers.
-- Rtdoa       apps/rtdoa_node/src/main.c (Node) and apps/rtdoa_tag/src/main.c (Tag, Sensors); Slots
--             compares their slot plans, Turns is about who asks in the ranging slot,
--             Sensors/Ends about the loops of the sensor timer, Console about the way from the slots of a tag to its
--             console. The tag sends by Backhaul.
-- Twr         apps/twr_nranges_tdma (Nranges), apps/twr_node_tdma (Node), apps/twr_tag_tdma (Tag)
--             and apps/twr_aloha (Aloha), each src/main.c; Sharing, Rotation and Plan have theorems,
--             and Timeouts is about the timeout that the node keeps between slots
-- Streaming   apps/streaming/src/main.c; Loss is about its counters, Transport about the way
--             from the sender to them, Plan about its slots
-- Tdoa        apps/tdoa_tag/src/main.c, with its settings in Conf; Blink is about its timer
-- Ota         apps/ota_uwb_master/src/main.c and apps/ota_uwb_slave/src/main.c
-- Ble         lib/bleprph/src/bleprph.c and gatt_svr.c; Links is about its events, Name about the
--             name of the device
-- Listener    apps/listener/src/main.c. Structs: its structures; Conf: the settings; Receive: the
--             reception, also with the boards of PDOA_SPI; Laws: both. Print: the lines that it prints
--             and sends, with Values and Document about them. Impulse: the impulse responses in a
--             line. Boards: the measurements of the boards; Net: what comes in over the network.
--             Radios: how new settings reach the radios.
-- Startup     `main` of each application, as the list of its calls: Ranging, Location and Others;
--             Banner: the lines that it prints. Order is about what comes before what.
-- Updates     the protocol for new settings that four applications share
-- Tests       the theorems at concrete inputs
--
-- A function of C has the name of the C function. State that a function changes is an argument and
-- a result, with the trace of its calls. Machine integers are natural numbers with their wrap-around
-- written out; a float is its bit pattern, and the arithmetic on floats is a parameter. Loops are
-- recursions on the rounds that are left, which the callers count as the C code does: the slots
-- below the number of slots, the 18 packets of a stream burst, the bits of a mask, the frames of an
-- instance. The two loops of the sensor timer wait for hardware; they take fuel, one unit for each
-- read, and end with nothing when it runs out. The loop that echoes data from the network takes fuel
-- too, and more fuel than bytes is enough. Callbacks interleave in `Backhaul.Wait.Step`, a relation
-- with a step for each point of a listen, and in the event lists of `Backhaul.Fifo.run` and
-- `Rtdoa.Console.run`.
--
-- Not modelled: the text of the messages that a slot or completion callback prints where a call
-- fails (an entry of the trace stands for each), and the calculations of the radio library. The bytes
-- of a packet are kept as the structure that lies in them, and a copy of some of them is cut field by
-- field; the header of a frame, which is a structure of the radio library, is shorter than any packet
-- that is taken and always whole. An entry of a packet past the end of its array is not
-- modelled, nor a failed assert on the copy of an impulse response in the listener.
pub mod Prelude
pub mod Text
pub mod Json
pub mod Float
pub mod Radio
pub mod Tdma
pub mod Backhaul
pub mod Rtdoa
pub mod Twr
pub mod Ota
pub mod Streaming
pub mod Tdoa
pub mod Ble
pub mod Listener
pub mod Startup
pub mod Updates
pub mod Tests
