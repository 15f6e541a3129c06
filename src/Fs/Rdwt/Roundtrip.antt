-- ===== src/Fs/Rdwt/Roundtrip.antt =====
-- What was written to a file is what is read from it.
use lwos.Common.{ℕ}
use lwos.Fs.Rdwt.{Files}

-- The open file at another position.
abbrev pub at_position : ℕ → Files → Files
at_position pos f = record f { desc = record (f.desc) { fd_pos = pos } }
