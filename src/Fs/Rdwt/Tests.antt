-- ===== src/Fs/Rdwt/Tests.antt =====
-- Transfers of a small file.
use lwos.Common.{refl, true, false, some, inl, ◌%◌}
use lwos.Fs.Rdwt.{Request, Files}
use lwos.Fs.Rdwt.Whole.{IsOpenFile}
use lwos.Fs.Rdwt.Roundtrip.{at_position}

-- Inode 5, 1000 bytes long, at position 510.
abbrev file : Files
file = record {
  sb = record { nr_imap_sects = 1; nr_smap_sects = 20; n_1st_sect = 279 };
  desc = record { fd_mode = 3; fd_pos = 510; fd_cnt = 1; fd_inode = some 2 };
  pin = record {
    i_mode = 32768;
    i_size = 1000;
    i_start_sect = 4375;
    i_nr_sects = 2048;
    i_cnt = 1;
    i_num = 5;
  };
  disk = λ at. at % 256;
  fsbuf = λ at. 0;
  mem = λ at. at % 200;
}

abbrev to_write : Request
to_write = record { writing = true; source = 6; seg = 1048576; buf = 300; cnt = 600 }

abbrev to_read : Request
to_read = record { writing = false; source = 6; seg = 1048576; buf = 4000; cnt = 40 }

abbrev near_the_end : Files
near_the_end = at_position 990 file

near_the_end-IsOpenFile : IsOpenFile near_the_end
near_the_end-IsOpenFile = record { for_both = refl; kind = inl refl }

abbrev past_end : Request
past_end = record { writing = false; source = 6; seg = 1048576; buf = 4000; cnt = 30 }

abbrev read_back : Request
read_back = record { writing = false; source = 7; seg = 2097152; buf = 0; cnt = 600 }
