-- ===== src/Fs/Sfs/Trunc/Tests.antt =====
-- Files that grow, for the theorems about `sfs_truncfile` of lab8/kern/fs/sfs/sfs_inode.c.
use nku_os.Base.{◌+◌, ◌≡◌, ◌≢◌, refl, sym, false, ◌&&◌, ltb, ◌==◌, if◌then◌else◌, [], ◌∷◌, arith}
use nku_os.Base.Result.{Result, ok, err, panic, Post}
use nku_os.Fs.Sfs.{Sfs}
use nku_os.Fs.Sfs.Space.{Space, free_count-none}
use nku_os.Fs.Sfs.Wf.{Owns, place_of}
use nku_os.Fs.Sfs.Tests.{thirteen, thirteen-WellSized}
use nku_os.Fs.Sfs.Trunc.{sfs_truncfile, sfs_tryseek}
use nku_os.Fs.Sfs.Trunc.Resize.{
  Sized, Partly, sfs_truncfile-Sized, sfs_truncfile-panic, sfs_tryseek-panic,
}

thirteen-Sized : Sized thirteen
thirteen-Sized = (thirteen-WellSized, refl)

sfs_truncfile-Sized_example :
    Post (λ _ t. Sized t × (t.size ≡ 60000)) (Partly thirteen) (sfs_truncfile 60000 thirteen)
sfs_truncfile-Sized_example = sfs_truncfile-Sized thirteen 60000 thirteen-Sized (omega arith)

-- The fifth call of the device fails, after one block.
abbrev fails_late : Sfs
fails_late = record thirteen { answers = 0 ∷ 0 ∷ 0 ∷ 0 ∷ 5 ∷ [] }

abbrev state_of : Sfs → Result Sfs (Unit {0}) → Sfs
state_of s (ok a t) = t
state_of s (err e t) = t
state_of s panic = s

abbrev after_error : Sfs
after_error = state_of fails_late (sfs_truncfile 61440 fails_late)

late_error : (sfs_truncfile 61440 fails_late ≡ err 5 after_error) × (after_error.nblocks ≡ 14)
unfolding sfs_truncfile
late_error = (refl, refl)

fails_late-Sized : Sized fails_late
fails_late-Sized =
    let w = thirteen-WellSized.0 in
    ((record { space = w.space; owns = w.owns }, thirteen-WellSized.1, thirteen-WellSized.2), refl)

fourteen : after_error.nblocks ≢ 13
fourteen e = omega (arith, e, late_error.1)

sfs_truncfile-panic_example : sfs_truncfile after_error.size after_error ≡ panic
sfs_truncfile-panic_example =
    sfs_truncfile-panic fails_late after_error 61440 5 fails_late-Sized (omega arith) late_error.0
      fourteen

-- A file as large as the block map, on a full device.
abbrev largest : Sfs
largest = record {
  blocks = 1039;
  unused_blocks = 0;
  super_dirty = false;
  freemap = record { nbits = 1056; nwords = 33; map = λ i. false };
  disk = λ b k. if b == 14 && ltb k 1024 then k + 15 else 0;
  answers = [];
  size = 4243456;
  nblocks = 1036;
  direct = λ i. if ltb i 12 then i + 2 else 0;
  indirect = 14;
  dirty = false;
}

largest-Space : Space 1039 0 1056 33 (λ i. false)
largest-Space = record {
  small = omega arith;
  covers = omega arith;
  words = omega arith;
  low = λ j e. absurd (ground (arith, e));
  high = λ j e. absurd (ground (arith, e));
  counted = sym (free_count-none 1039 (λ i. false) (λ j h. refl));
}

largest-Owns : Owns 1039 (λ i. false) (place_of largest)
largest-Owns = record {
  in_range = λ j h. ground (arith, h);
  in_use = λ j h. refl;
  apart = λ j k e h. ground (arith, e, h);
}

largest-Sized : Sized largest
largest-Sized = (
  (record { space = largest-Space; owns = largest-Owns }, omega arith, λ j l. ground (arith, l)),
  refl,
)

sfs_tryseek-panic_example : sfs_tryseek 5000000 largest ≡ panic
sfs_tryseek-panic_example =
    sfs_tryseek-panic largest 5000000 largest-Sized refl (omega arith) (omega arith)
