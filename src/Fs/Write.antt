-- ===== src/Fs/Write.antt =====
-- `fs_write` from the start of a block: the bytes of the buffer, over those of the file.
use yanix.Fs.Device.{Device}
