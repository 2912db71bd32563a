-- ===== src/Disk.antt =====
-- What a `save` method does to its file: open with O_TRUNC, encode, write. The content of a file is
-- represented by the value that was encoded; `none` is a file without a complete content.
use mulch.Prelude.{Bool, true, false, Option, none, some}

-- How the calls of the operating system turn out.
pub data Io : Type 0 where
  done open_failed write_failed : Io

abbrev pub write_file {ℓ} : {A : Type ℓ} → Io → A → Option A → Option A
write_file done a old = some a
write_file open_failed a old = old
write_file write_failed a old = none

abbrev pub succeeded : Io → Bool
succeeded done = true
succeeded _ = false
