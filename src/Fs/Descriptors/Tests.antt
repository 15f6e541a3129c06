-- ===== src/Fs/Descriptors/Tests.antt =====
-- A file of 100 bytes that process 6 has open at position 40.
use lwos.Common.{none, some, ◌==◌, if◌then◌else◌}
use lwos.Fs.Descriptors.{Tables}

abbrev opened : Tables
opened = record {
  filp = λ pid fd. if pid == 6 then (if fd == 2 then some 0 else none) else none;
  f_desc_table = λ d. record { fd_mode = 2; fd_pos = 40; fd_cnt = 1; fd_inode = some 3 };
  inode_table = λ i. record {
    i_mode = 32768;
    i_size = 100;
    i_start_sect = 4375;
    i_nr_sects = 2048;
    i_cnt = 1;
    i_num = 5;
  };
}
