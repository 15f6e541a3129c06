-- ===== src/Protect.antt =====
-- kernel/protect.c, with the segment arithmetic of include/sys/protect.h and kernel/proc.c: how a
-- segment's base and limit are spread over the fields of a descriptor and put together again.
pub mod Laws
mod Tests
use lwos.Common.{ℕ, ◌+◌, ◌*◌, ◌/◌, ◌%◌, bit_and, bit_or}

-- `DESCRIPTOR`. Fields hold what fits their width: `u16` for the low ones, `u8` for the others.
pub record Descriptor : Type 0 where
  pub limit_low : ℕ
  pub base_low : ℕ
  pub base_mid : ℕ
  pub attr1 : ℕ
  pub limit_high_attr2 : ℕ
  pub base_high : ℕ

-- The writes of `init_desc` cover every field, so what the descriptor held before does not matter.
unfoldable pub init_desc : ℕ → ℕ → ℕ → Descriptor
init_desc base limit attribute = record {
  limit_low = bit_and limit 0xffff;
  base_low = bit_and base 0xffff;
  base_mid = bit_and (base / 0x10000) 0xff;
  attr1 = bit_and attribute 0xff;
  limit_high_attr2 = bit_or (bit_and (limit / 0x10000) 0xf) (bit_and (attribute / 256) 0xf0);
  base_high = bit_and (base / 0x1000000) 0xff;
}

-- The body that `ldt_seg_linear` and `seg2linear` share.
unfoldable pub ldt_seg_linear : Descriptor → ℕ
ldt_seg_linear desc =
    bit_or (bit_or (desc.base_high * 0x1000000) (desc.base_mid * 0x10000)) desc.base_low

-- `reassembly(high, high_shift, mid, mid_shift, low)`, with the shifts as multipliers.
abbrev pub reassembly : ℕ → ℕ → ℕ → ℕ → ℕ → ℕ
reassembly high high_scale mid mid_scale low = high * high_scale + mid * mid_scale + low

-- `caller_T_base`, `caller_T_limit` and `caller_T_size` of `do_fork`.
unfoldable pub seg_base : Descriptor → ℕ
seg_base d = reassembly d.base_high 0x1000000 d.base_mid 0x10000 d.base_low

unfoldable pub seg_limit : Descriptor → ℕ
seg_limit d = reassembly 0 1 (bit_and d.limit_high_attr2 0xf) 0x10000 d.limit_low
