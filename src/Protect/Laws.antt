-- ===== src/Protect/Laws.antt =====
-- A descriptor gives back the base and limit that `init_desc` put into it.
use lwos.Common.{
  ℕ, ◌+◌, ◌*◌, ◌/◌, ◌%◌, ◌^◌, ◌<◌, bit_and, bit_or, ◌≡◌, refl, arith, true, ◌&&◌, ◌==◌,
}
use lwos.Common.Bits.{
  bit_or-shl, passes_below, passes_below-lt, and_0xf, and_0xff, and_0xffff, and_0xf0,
}
use lwos.Protect.{init_desc, ldt_seg_linear, seg_base, seg_limit}

-- `high << 24 | mid << 16 | low` adds the fields up.
fields_add :
    (high mid low : ℕ)
    → mid < 256
    → low < 0x10000
    → bit_or (bit_or (high * 0x1000000) (mid * 0x10000)) low
      ≡ high * 0x1000000 + mid * 0x10000 + low
fields_add high mid low hm hl = ground (
  arith,
  bit_or-shl 24 high (mid * 0x10000) (omega arith),
  bit_or-shl 16 (high * 256 + mid) low (omega arith),
)

-- The kernel's own way to a segment's base, and the one of `do_fork`, both give back the base that
-- `init_desc` was given, whatever the limit and the attributes.
pub seg_base-init_desc :
    (base limit attribute : ℕ)
    → base < 2 ^ 32
    → (ldt_seg_linear (init_desc base limit attribute) ≡ base)
      × (seg_base (init_desc base limit attribute) ≡ base)
unfolding init_desc ldt_seg_linear seg_base
seg_base-init_desc base limit attribute h =
    rw (and_0xff (base / 0x1000000), and_0xff (base / 0x10000), and_0xffff base)
      (omega (
        arith,
        fields_add (base / 0x1000000 % 256) (base / 0x10000 % 256) (base % 0x10000) (omega arith)
            (omega arith),
      ))

nibbles_table :
    passes_below
      (λ v.
        (bit_and (bit_or (v % 16) (v / 16 * 16)) 0xf == v % 16)
        && (bit_or (v % 16) (v / 16 * 16) / 16 == v / 16))
      256
    ≡ true
unfolding passes_below
nibbles_table = refl

nibbles :
    (lo hi : ℕ)
    → lo < 16
    → hi < 16
    → (bit_and (bit_or lo (hi * 16)) 0xf ≡ lo) × (bit_or lo (hi * 16) / 16 ≡ hi)
nibbles lo hi hl hh = ground (arith, passes_below-lt _ 256 {v = hi * 16 + lo} nibbles_table)

-- `do_fork` reads back the low twenty bits of the limit, and the byte beside them keeps bits 12 to
-- 15 of the attribute (granularity, operand size): the two share `limit_high_attr2` and do not mix.
pub seg_limit-init_desc :
    (base limit attribute : ℕ)
    → attribute < 2 ^ 16
    → (seg_limit (init_desc base limit attribute) ≡ limit % 2 ^ 20)
      × ((init_desc base limit attribute).limit_high_attr2 / 16 ≡ attribute / 2 ^ 12)
unfolding init_desc seg_limit
seg_limit-init_desc base limit attribute h =
    rw (and_0xffff limit, and_0xf (limit / 0x10000), and_0xf0 (attribute / 256) (omega arith))
      (omega
        (arith, nibbles (limit / 0x10000 % 16) (attribute / 256 / 16) (omega arith) (omega arith)))
