-- ===== src/Protect/Tests.antt =====
-- The descriptor theorems at the segment of a user process.
use lwos.Common.{◌≡◌, refl}
use lwos.Protect.{init_desc}

runs : (init_desc 0xa12345 0x1200ff 0xc0f2).limit_high_attr2 ≡ 0xc2
unfolding init_desc
runs = refl
