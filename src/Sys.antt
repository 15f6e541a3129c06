-- ===== src/Sys.antt =====
-- kernel/systask.c: the ticks, process numbers and the time of day.
pub mod Rtc
use lwos.Common.{ℕ, ◌+◌, ◌*◌, ◌/◌, bit_and, ◌==◌, if◌then◌else◌}
use lwos.Fault.{Result, ok, err, panic}

pub record Time : Type 0 where
  pub year : ℕ
  pub month : ℕ
  pub day : ℕ
  pub hour : ℕ
  pub minute : ℕ
  pub second : ℕ

-- `BCD_TO_DEC`.
pub bcd_to_dec : ℕ → ℕ
bcd_to_dec x = x / 16 * 10 + bit_and x 0xf

abbrev pub clk_status : ℕ
clk_status = 0x0b

-- `get_rtc_time`, with the registers of the clock, each a byte. No second passes between two reads.
pub get_rtc_time : (ℕ → ℕ) → Time
get_rtc_time read_register =
    let coded : Time = record {
      year = read_register 9;
      month = read_register 8;
      day = read_register 7;
      hour = read_register 4;
      minute = read_register 2;
      second = read_register 0;
    } in
    let plain : Time =
      if bit_and (read_register clk_status) 0x04 == 0
      then record {
        year = bcd_to_dec coded.year;
        month = bcd_to_dec coded.month;
        day = bcd_to_dec coded.day;
        hour = bcd_to_dec coded.hour;
        minute = bcd_to_dec coded.minute;
        second = bcd_to_dec coded.second;
      }
      else coded in
    record plain { year = plain.year + 2000 }

-- A message to the task, and its answer.
pub data SysMessage : Type 0 where
  get_ticks get_pid get_time unknown : SysMessage

pub data SysAnswer : Type 0 where
  retval : (ticks : ℕ) → SysAnswer
  pid : ℕ → SysAnswer
  time : Time → SysAnswer

-- One round of `task_sys`, for a message from `src`.
pub task_sys : (ticks src : ℕ) → (ℕ → ℕ) → SysMessage → Result SysAnswer
task_sys ticks src read_register get_ticks = ok (retval ticks)
task_sys ticks src read_register get_pid = ok (pid src)
task_sys ticks src read_register get_time = ok (time (get_rtc_time read_register))
task_sys ticks src read_register unknown = err panic
