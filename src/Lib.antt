-- ===== src/Lib.antt =====
-- ESP-NOW MIDI carries MIDI between ESP32 devices over ESP-NOW, and between them and a computer by
-- way of a dongle on USB. This library models the pure logic of the C++ headers under include/, on
-- which the devices, the dongle and the client build, with the results listed at the end.
--
-- How the parts interact: received ESP-NOW packets enter the inbox (MidiInbox) in the callback and
-- leave it in the loop; messages for the computer go through the USB queue (UsbMidiQueue) and, as
-- event packets, to USB (UsbMidiPacket); the watchdog (UsbStallWatchdog) looks at the USB state once
-- per loop and asks for a wakeup, a detach or an attach. What a device sends waits in the send queue
-- (SendQueue) for the sender task. SysEx is cut into frames by the sender (sendSysex) and joined by
-- the receiver (Reassembler); whole SysEx messages for USB wait in UsbSysExQueue. The class
-- esp_now_midi ties these together: it keeps the peers in step with the driver, sends what is queued
-- one packet at a time, restarts a driver that no longer confirms, and calls the handlers for what
-- arrives. SysEx messages with the maker's number are commands: the codec (SysExEncoder,
-- SysExDecoder) forms and reads them, and SysExHandler answers them or calls back. The class IO has
-- the pins of a client: it sets the callbacks of SysExHandler, stores the pin configurations, polls
-- the inputs for MIDI and drives the outputs by it.
--
-- The files, each with the names of the code in snake case:
--   Midi            include/esp_now_midi_helpers.h: midi_message, midi_message_packet and their
--                   conversions fromMessage, toMessage, getDataSize.
--   UsbQueue        include/UsbMidiQueue.h: the ring as a record, one function per operation.
--                   UsbQueue/Policy is the policy on lists, UsbQueue/Slots the view of the ring as a
--                   list, UsbQueue/Promises what follows for MIDI.
--   Sysex           include/esp_now_midi_sysex.h: the frame format (encodeFrame, parseFrame) and
--                   include/esp_now_midi.h: sendSysex, with the send step as a parameter.
--                   Sysex/Reassembler is the class of that name and its slots.
--   SendQueue       include/esp_now_midi_send_queue.h: push and pop over the two rings.
--                   SendQueue/Fifo is the one line of packets that they implement.
--   Watchdog        include/UsbStallWatchdog.h: the state; Watchdog/Tick has tick and what it calls,
--                   Watchdog/Descriptor has findMidiInEndpoint.
--   UsbPacket       include/UsbMidiPacket.h: toUsbMidiPacket and writeUsbMidiSysEx;
--                   UsbPacket/Waiting has writeUsbMidiSysExWaiting and UsbSysExPacer.
--   Inbox           include/MidiInbox.h; Inbox/Sysex is include/UsbSysExQueue.h.
--   DisplayPacer    include/DisplayPacer.h.
--   Transport       include/esp_now_midi.h: the class esp_now_midi. Transport/Send has the send
--                   methods, Transport/Dispatch isMidiPacket and the switch of OnDataRecv,
--                   Transport/Peers the peer list, Transport/Table addPeer, removePeer, clearPeers
--                   and addDiscoveredPeers with the driver, Transport/Flight the send state and the
--                   restart; Transport/Device is the whole state and OnDataRecv, Transport/Outgoing
--                   deliver, sendQueued, sendToPeersExcept and send. Their laws are in Wire,
--                   Receiving, TableSteps, Removals, TableRuns, Whole, Reach, Stall, Recovery and
--                   Sending.
--   Codec           include/enomik_sysex_codec.h, with PinConfig of include/enomik_pinconfig.h:
--                   Codec/Encode and Codec/Decode, and the round trips in Numbers and Names.
--   Handler         include/enomik_sysex.h: Handler/Effects has the send methods and the callbacks as
--                   effects; the handlers and routeCommand are in Handler. Handler/Expected says what
--                   a message may make them do, Handler/Passed when they call back.
--   UsbReceive      include/esp_now_midi_usb.h: SysexAssembler and dispatchPacket.
--   Io              include/enomik_io.h: Io/Device is the state and what changes it, Io/Commands
--                   setupSysExHandlers, onSysEx and loop, with the answers in Io/Answers and the raw
--                   stream in Io/Stream; Io/Digital, Io/Analog, Io/Touch and Io/Pins are the inputs,
--                   Io/Outputs the outputs, Io/Scaling map and constrain of
--                   include/esp_now_midi_compat.h. Io/Configs and Io/Names are what is stored, by
--                   Io/Preferences, which is include/esp_now_midi_prefs.h. Their laws are in Reload,
--                   Requests, Upsert, Answered, Replies, Debounce, Levels,
--                   Hysteresis and Frames.
--   Storage         include/PeerStorage.h: the peers and the medium that keeps them.
--   Directory       include/PeerDirectory.h.
--   PeerMutes       include/PeerMuteList.h, with the packing of addresses.
--   Base            Boolean tests, lists, arrays as functions, rings, machine words, bit fields.
--
-- Conventions. An operation takes the state and returns the new one, with its result beside it.
-- Numbers are natural numbers; the wrap-around of a machine word is written out (u8, u16, u32, sub16,
-- sub32). A fixed array is a function from its index. A MAC address that is only copied and compared
-- is a number. A function that fills an output parameter and returns false otherwise returns an
-- Option. Pointers are never null here. Each critical section is one step, so that an interleaving
-- of tasks is a sequence of operations.
--
-- Sizes and fuel. UsbMidiQueue, MidiInbox and UsbSysExQueue have the default sizes 64, 64 and 2; the
-- send queue has any slot counts up to 2^15 in sum, which its sequence numbers need. Loops over an
-- array recurse on the number of rounds left. The descriptor search has one more unit of fuel than
-- the total length, and each round moves on by two bytes or more; the SysEx writer has one more than
-- the length, and each round moves on by three; so both have enough. The waits of the
-- SysEx writer that waits are on fuel, since they end only when its caller's clock moves on. The loop
-- of service has one round more than packets wait; each round takes one.
--
-- The ESP-NOW driver is a parameter: its peer table by EspNow, whose laws IsEspNow names, and its
-- answer to a packet as an argument of the operation. addPeer, removePeer, clearPeers and the restart
-- are put together from their critical sections and driver calls (Transport/Table), which are the
-- steps of Transport/TableRuns; getPeersCount before the driver is asked changes nothing and is left
-- out there. Table names the addresses between two of them. A restart drops and starts the driver in
-- one step. An addPeer of an address that another task is removing, or that a restart has still to
-- give back, is left out of these steps: the driver takes such an address while the list still has
-- it. The waits of deliver are a list of what other tasks do meanwhile.
--
-- NVS is a parameter as well: Nvs has its calls, and IsNvs says that what is set is read back and that
-- nothing else changes. So are the floats of the smoothing (Floats), what the pins read (Readings),
-- the callbacks of the application (Hooks) and the identity of the firmware. What is -1 in PinState is
-- none; readings are not negative.
--
-- Not modelled: the setup of the radio and of WiFi (begin), the registration of handlers, USB and
-- pin calls, the backends of the storage, enomik_dongle.h, enomik_client.h, the
-- descriptors and TinyUSB calls of esp_now_midi_usb.h, and the Python port. In the watchdog, the
-- one-line getters are the fields.
pub mod Base
pub mod Midi
pub mod UsbQueue
pub mod Sysex
pub mod SendQueue
pub mod Watchdog
pub mod UsbPacket
pub mod Inbox
pub mod DisplayPacer
pub mod PeerMutes
pub mod Codec
pub mod Handler
pub mod Transport
pub mod Storage
pub mod Directory
pub mod UsbReceive
pub mod Io
