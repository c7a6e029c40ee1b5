-- ===== src/Pipeline/Writeout/Tests.antt =====
-- A round of the write-out thread on a frame of four bytes.
use synchronome.Base.{ℕ, ◌≡◌, refl, true, false, [], ◌∷◌, some, arith}
use synchronome.Base.Int.{pos}
use synchronome.Timetools.{Timespec}
use synchronome.Memlog.{zeroed}
use synchronome.Buffer.{Buffer, live}
use synchronome.Dumptools.{Disk, open_file, frames, ppm}
use synchronome.Queue.Kernel.{kernel}
use synchronome.Transformation.{do_transformations, rgb_pair}
use synchronome.Transformation.Layout.{rgb_of}
use synchronome.Transformation.Dump.{image_of, do_transformations_lem}
use synchronome.Dumptools.Image.{filed, refused}
use synchronome.Pipeline.Writeout.{WriteState, writeout_round}
use synchronome.Pipeline.Outcome.{Safely}
use synchronome.Pipeline.Writeout.Sound.{IsSound, Stopped, writeout_round-Sound}
use synchronome.Pipeline.Writeout.Count.{IsNumbered, Below, Counted, writeout_round-Counted}

abbrev at : ℕ → Timespec
at s = record { tv_sec = pos s; tv_nsec = pos 0 }

abbrev source : Buffer
source = record {
  start = live (16 ∷ 128 ∷ 235 ∷ 128 ∷ []);
  size = 4;
  time = at 5;
  index = pos 0;
  id = pos 9;
}

abbrev target : Buffer
target = record {
  start = live (0 ∷ 0 ∷ 0 ∷ 0 ∷ 0 ∷ 0 ∷ []);
  size = 6;
  time = at 0;
  index = pos 0;
  id = pos 0;
}

abbrev disk : Disk
disk = record {
  frame_num_s = 1;
  calls = open_file true (record { prefix = frames; number = 0; suffix = ppm }) ∷ [];
}

abbrev state : WriteState kernel
state = record {
  running = true;
  total_frames_written = 1;
  wo_buffers = source ∷ [];
  writeout_q = record { q = 0 ∷ []; num_elems = 100; b = 0; count = pos 1 };
  wo_buffer = target;
  disk = disk;
  writeout_log = record { index = 0; log = zeroed ∷ zeroed ∷ [] };
}

state-IsNumbered : IsNumbered 1 disk
unfolding IsNumbered Below
state-IsNumbered = (omega arith, (omega arith, tt))

writeout_round-Counted_example :
    Counted kernel true 1 disk (writeout_round kernel (at 1) (at 2) true state)
writeout_round-Counted_example =
    writeout_round-Counted kernel (at 1) (at 2) true state refl state-IsNumbered (omega arith)

do_transformations_lem_example :
    let image = image_of (16 ∷ 128 ∷ 235 ∷ 128 ∷ []) source target in
    (do_transformations true source target disk ≡ some (image, filed image disk))
    × (do_transformations false source target disk ≡ some (image, refused disk))
do_transformations_lem_example =
    do_transformations_lem source target disk (16 ∷ 128 ∷ 235 ∷ 128 ∷ [])
      (0 ∷ 0 ∷ 0 ∷ 0 ∷ 0 ∷ 0 ∷ []) refl refl refl (unfold rgb_of rgb_pair in refl) (omega arith)

state-IsSound : IsSound kernel 6 state
unfolding rgb_of rgb_pair
state-IsSound = record {
  sources = (record { bytes = _; memory = refl; whole = refl; image_size = refl }, tt);
  target = record { bytes = _; memory = refl; room = refl };
  counter = omega arith;
  logged = omega arith;
  indices = (omega arith, tt);
}

writeout_round-Sound_example :
    Safely (IsSound kernel 6) (Stopped kernel) (writeout_round kernel (at 1) (at 2) true state)
writeout_round-Sound_example = writeout_round-Sound kernel 6 (at 1) (at 2) true state state-IsSound
