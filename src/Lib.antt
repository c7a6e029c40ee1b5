-- ===== src/Lib.antt =====
-- A verification library for the synchronome: a camera program that photographs a ticking clock once
-- a second on a Raspberry Pi, with the scheduling exercises that were written beside it.
--
-- The program. In simple-capture a timer signal runs the handler `sequencer` every 10 ms. Every
-- fourth tick it posts the semaphore of the frame thread (frame.c), which takes a camera buffer,
-- copies it into the next of 90 scan buffers and queues that buffer's index (queue.c) for the
-- processing thread (processing.c). This one watches for the clock hand's tick with the detector of
-- motion.c until five ticks have synchronised it, then selects every 25th frame, copies it into the
-- next of 100 write-out buffers and queues that index for the write-out thread (writeout.c), which
-- converts it (transformation.c) and writes it to a file (dumptools.c), 1801 files in all. Each
-- thread keeps an event log (memlog.c), printed at the end with the help of timetools.c. The
-- directories feasibility and schedule hold tests of rate monotonic feasibility and a simulator of
-- RM, EDF and LLF scheduling.
--
-- The files, each with the code it models; a function keeps its C name, in lower case.
--   Base             Boolean tests, lists on native numbers, and the integers ℤ for C's signed types
--   Timetools        simple-capture/timetools.c: `timespec_subtract`
--   Motion           simple-capture/motion.c: `next_motion_state`, `is_motion`, the comparisons
--   Queue            simple-capture/queue.c: the record `QueueContainer` and its operations; `Step`
--                    is the interleaving of one enqueue and one dequeue on the shared buffer `b`
--   Memlog           simple-capture/memlog.c: the ring `Memlog`, the macros of memlog.h, the dumps
--   Buffer           simple-capture/buffer.c and resources.c: buffers, their memory, their arrays
--   Camera           simple-capture/camera_init.c, camera_buffer.c, `video_error_cleanup` of camera.c
--   CameraDriver     the rest of simple-capture/camera.c: what it asks the driver, and the focus
--   Pipeline.Frame   simple-capture/frame.c: `frame_round` is one round of the loop of `frame`
--   Pipeline.Processing  simple-capture/processing.c: `processing_step` is one step of `processing`,
--                    which is the head of the outer loop or a round of the inner loop
--   Pipeline.TenHz   simple-capture/processing.c as MODE_10Hz builds it: `ten_step` is one step
--   Pipeline.Writeout    simple-capture/writeout.c: `writeout_round` is one round of `writeout`
--   Pipeline.System  the frame and the processing thread side by side on the globals they share: a
--                    `Step` is the part of a round between two accesses to these, so that a call of
--                    enqueue_P or dequeue_P is several steps. The code leaves the receive buffer of
--                    a queue to both threads (Queue.Race); `Apart` says when they do not meet there
--   Dumptools        simple-capture/dumptools.c: the calls that write an image; Dumptools.Header has
--                    the text of its header
--   Verify           simple-capture/wcet/verify_frames.c: `burn_header`, `load_pieces` and
--                    `decode_time` read an image back, `check_from` compares the images
--   Transformation   simple-capture/transformation.c: YUYV to RGB and grey, `do_transformations`
--   Sharpen          simple-capture/sharpen.c: `y_channel_sharpen`
--   Realtime         simple-capture/realtime.c: how the main thread and its threads are scheduled
--   Sequencer        simple-capture/sequencer.c: `sequencer`, `ctrl_c` and the timer; Sequencer.Main
--                    is `main`: `start_up`, `go` and, after the joins, `tear_down`
--   Feasibility      feasibility/feasibility_tests_updated.c and tests.c
--   Schedule         schedule/schedule.c: `tick` is one round of the engine
--
-- How state and errors stand. A record holds the globals and locals of a thread; a round takes it
-- to an `Outcome`: the next state, the return of the thread's function, or a fault, which is a
-- failed assertion or an access out of range. Code outside the repository is a parameter: the
-- kernel's message queue (`Mqueue`, with the documented laws of mq_timedsend and mq_receive, which
-- Queue.Kernel shows can hold), the attributes of threads (`Pthreads`, which Realtime.Linux shows
-- can hold), malloc (memory of the size asked for, or none), the camera's replies, the clock and
-- open(2). Integers of a fixed width wrap where the code relies on it: the log's 24-bit data, the
-- file counter and the sums of the feasibility tests; `int` counters are unbounded.
--
-- Fuel. `flush_queue` takes fuel for its loop, and one more than the messages in the queue is enough.
-- The loop of the completion time test takes fuel too, and more than the longest period is enough on
-- every set that is feasible; on others the loop may climb past 32 bits, which the model reports.
-- verify_frames.c reads a header in 18 rounds and an image in at most as many pieces as it has bytes.
-- Everything else recurs on the data.
--
-- Not modelled: what `main` prints and the main programs beside the sequencer's, what the V4L2
-- calls print of their replies, the RGB filter of sharpen.c, v4l2_capabilities.c,
-- MODE_ALWAYS_DETECT_FRAME of processing.c and the profiling variants, the text of file names, the
-- arguments and the printing of schedule.c, and jitter, which is an earlier copy of code modelled
-- here.
pub mod Base
pub mod Buffer
pub mod Camera
pub mod CameraDriver
pub mod Dumptools
pub mod Feasibility
pub mod Memlog
pub mod Motion
pub mod Pipeline
pub mod Queue
pub mod Realtime
pub mod Schedule
pub mod Sequencer
pub mod Sharpen
pub mod Timetools
pub mod Transformation
pub mod Verify
