-- ===== src/Lib.antt =====
-- A model of the core of the display and input stack of the repository, with proofs.
--
-- The program is a set of files of Android's native services and of the Linux kernel, changed so
-- that input events and display buffers take a path of their own; source-code/ holds them. The
-- events of the devices come out of the event hub into InputReader
-- (osdi-artifact/source-code/InputReader.cpp), which splits them by device; a device hands each
-- event to its mappers, and a mapper collects the events of a packet in accumulators and turns
-- them into pointers, keys and buttons, which leave through a queue. In the kernel the windows
-- are a list (window.c), and an event goes to the buffers of the windows on top (dispatcher.c).
--
-- Which file models which part (paths below osdi-artifact/source-code/):
--  * Input.Event: RawEvent of InputReader.cpp. Input.Cursor: CursorButtonAccumulator,
--    CursorMotionAccumulator and CursorScrollAccumulator. Input.TouchButtons:
--    TouchButtonAccumulator. Input.SingleTouch and Input.MultiTouch: the motion accumulators. The
--    state of each is a record with the fields of the class, and `process`, `reset`, `configure`
--    and `finish_sync` are its methods.
--  * Pointer.Raw: RawPointerData of InputReader.h. Pointer.Sync: MultiTouchInputMapper::syncTouch
--    (`sync_touch`) and SingleTouchInputMapper::syncTouch (`sync_single`). Pointer.Bits: the
--    operations of BitSet32, which is not in the repository, as a record with laws.
--  * Reader.Devices: createDeviceLocked; KeyedVector of libutils, which holds the devices, is an
--    argument. Reader.Context: the state that mappers share. Reader.Device: InputDevice.
--    Reader.Loop: InputReader from processEventsLocked to loopOnce. The mappers, the event hub, the
--    policy and the second reader are the record `Mappers`, whose operations change the shared state
--    in any way, and with it what configure changes of a device: its generation, sources and
--    configuration.
--  * Kernel.Window: window.c. Kernel.Dispatch: dispatcher.c.
--  * Display.Format and Display.Buffer: zizhan_buffer.cpp (`bo_create`, `bo_destroy`). The ioctls of
--    the DRM device, mmap and calloc are the record `Driver`.
--  * Mapper.KeyCode: the key codes and rotateKeyCode. Mapper.Keyboard: KeyboardInputMapper
--    (`process_key`, `reset`), with its data and `configure` in Mapper.Keyboard.State; its event hub
--    and context are the record `KeyHub`.
--  * Pointer.Heap and Pointer.Match: TouchInputMapper::assignPointerIds, with its heap of distances.
--  * Mapper.Vibrator: VibratorInputMapper. Mapper.Switch: SwitchInputMapper.
--  * Reader.Queries: getStateLocked and InputDevice::getState.
--  * Display.Queue: BufferQueueProducer.cpp. Display.Queue.State has the fields of BufferQueueCore
--    and the slots; what the producer calls of BufferQueueCore, BufferState and GraphicBuffer is the
--    record `Core`. Display.Queue.Sets: the sets of slots. Display.Queue: requestBuffer, detachBuffer,
--    detachNextBuffer and cancelBuffer. Display.Queue.Wait: waitForFreeSlotThenRelock.
--    Display.Queue.Dequeue, Attach, Enqueue (queueBuffer), Allocate (allocateBuffers), Connect (connect,
--    disconnect, setSidebandStream) and Limits (query and the setters): the methods of these names.
--    Display.Queue.Tickets: the callbacks of queueBuffer, with its threads as a step relation.
--    A part that holds the mutex is one step; what other threads do where it is let go is an
--    argument: a list of wakes for the wait, a `Course` for dequeueBuffer, rounds for allocateBuffers.
--    Display.Queue.Owners: who owns a slot, and the protocol by which it changes hands, as an abstract
--    specification of the operations.
--  * Mapper.Touch: what TouchInputMapper tells of the pointers it has cooked. Mapper.Touch.Motion:
--    dispatchMotion, updateMovedPointers and dispatchTouches. Mapper.Touch.Cycle: hovering, buttons,
--    abortTouches, and the part of cookAndDispatch that calls them. Properties and coordinates of a
--    pointer are parameters, with their comparison; precisions, displays and video frames are left
--    out of a motion, as are sequence numbers. Mapper.Touch.Stream: the protocol of a listener.
--  * Tests: a concrete value of each parameter, and the theorems at concrete inputs.
--
-- Numbers. Integers of events and times are unbounded (Prelude.Int), but for the timestamp of a
-- touch packet, which keeps its low 32 bits; a slot index, a generation and a sequence number are
-- unbounded too. Out of range, an array of slots is neither read nor written, as in the source; an
-- array of pointers is a function of its index.
--
-- Loops are structural recursion over lists. The outer loop of processEventsLocked runs on fuel,
-- the number of events of the read: each round takes one event at least. The search of dequeueBuffer
-- for a slot runs on fuel too: a round that goes on takes a slot from the free buffers, or a wake.
-- The frame counter of the queue and the age of a buffer wrap at 2^64; the tickets do not.
--
-- Not modelled: locks (each part that holds a lock is one step), the debug output,
-- hasKeys and the dumps of InputReader, the mappers that cook coordinates in floating point,
-- getLastQueuedBuffer, frame timestamps and binderDied of BufferQueueProducer.cpp, and the other
-- files of the repository: SurfaceFlinger.cpp, GLESRenderEngine.cpp, LibInputManager.cpp,
-- EventHubZizhan.cpp, the composer HAL and the JNI bridges, which are glue around services, and the
-- kernel's own files. InputReaderZizhan.cpp is a near copy of InputReader.cpp. pattern.cpp,
-- format.cpp and kms.cpp are copies of libdrm's files.
pub mod Display
pub mod Input
pub mod Kernel
pub mod Mapper
pub mod Pointer
pub mod Prelude
pub mod Reader
pub mod Tests
