-- ===== src/Lib.antt =====
-- A library for low-latency audio over USB: a userspace driver for USB Audio Class devices. A render
-- thread writes PCM frames into a byte ring and an event thread drains it into isochronous
-- transfers; captured packets come back through a second ring; waiting threads sleep on an eventfd.
--
-- Scheduling (include/liblowlatencyaudio/UsbScheduling.h) holds the arithmetic on frame budgets: one
-- function for each function of the header. Scheduling/Packets, Scheduling/Watermark and
-- Scheduling/Runway are about its parts, Scheduling/Rational is the class RationalPacketScheduler.
-- FlightRecorder (include/liblowlatencyaudio/PacketFlightRecorder.h) is the ring of packet events. Its
-- specification is the journal of FlightRecorder/Journal.
-- WakeChannel (include/liblowlatencyaudio/WakeChannel.h) is the eventfd with its count of waiters; the
-- kernel's part is the record `EventFd`. WakeChannel/Protocol has the handshake of one producer and
-- one waiter as steps, in the total order of their sequentially consistent operations.
-- ByteRing holds the copies into and out of a ring in at most two spans, and the queue of bytes that a
-- ring stands for. Playback (src/libusb_uac_driver.cpp) is the playback ring over it: `write_pcm` is
-- LibusbUacDriver::writePcm, `drain_ring` is drainRing, and so on, as the comments say.
-- Capture is the capture ring: Capture/Packets has the packet loop of onCapture, Capture itself the
-- two-phase read, beginCaptureLive and discardCaptureFrames. BufferConfig is
-- configureUserspaceBuffers, setUserspaceBufferConfig and setGraphQuantum over the two rings and
-- Scheduling.
-- Transfers is the engine around the rings: onFeedback, prepareImplicitTransfer and
-- submitPendingImplicitTransfers, and onCapture over Capture/Packets; the last two are in
-- Transfers/Submit. Transfers/Completion is onIso and Transfers/Service what it measures. The answer
-- of libusb_submit_transfer is a parameter.
-- Credit (include/liblowlatencyaudio/libusb_uac_driver.h) is the ledger that paces the producer.
-- CpuAffinity (include/liblowlatencyaudio/ThreadUtils.h) derives the CPU masks of the threads.
-- Descriptors is what the driver reads of libusb's descriptors: walkExtra with its callbacks, each of
-- which is a function on a record of what it has found. Descriptors/Playback is selectAltSetting with
-- the clock of Descriptors/Clock, Descriptors/Capture is captureChannelCount and
-- selectCaptureAltSetting, Descriptors/Enumerate is enumerateFormats. SampleRate is setSampleRate over
-- a device whose control transfers are a parameter. Waits is the wait loops over WakeChannel, Playback,
-- Capture and Credit: other threads act between the rounds, which are a list.
-- Session is the driver from open to close: Session/Start has the pumps and the starts, and a field
-- `held` counts what libusb has claimed. Session/Reached has the sessions that calls, in any order and
-- with any answers of libusb, and completions lead to.
-- Pacing is what startIsoPump and startCapturePump compute before they allocate: packet rates, the
-- lengths of the initial packets and the frames to prime. Session takes their outcome as answers.
--
-- Numbers: an `int` is an integer, and a hypothesis states its range where that matters; a `size_t`
-- or a uint64_t that wraps is a natural number taken modulo 2 ^ 64, as the counters of the rings are.
-- The byte rings have 2 ^ k bytes; k is at most 20, as configureUserspaceBuffers admits. The fuel of `round_up`
-- is 20, since a capacity that starts at 1 doubles at most so often below 2 ^ 20; that of `walk_extra` is
-- the number of bytes, of which each round takes two or more.
-- The rings and the recorder run one call at a time; only the handshake interleaves threads.
--
-- Not modelled: the Line6 UX1 profile, the event loop's own thread, the telemetry that a start resets,
-- and the render cycle of DirectUsbOutput.h; float samples; logging; and the calls of libusb, of the
-- Android APIs and of the tests.
pub mod Base
pub mod Scheduling
pub mod FlightRecorder
pub mod WakeChannel
pub mod ByteRing
pub mod Pacing
pub mod Playback
pub mod CpuAffinity
pub mod Capture
pub mod BufferConfig
pub mod Transfers
pub mod Credit
pub mod Descriptors
pub mod SampleRate
pub mod Waits
pub mod Session
