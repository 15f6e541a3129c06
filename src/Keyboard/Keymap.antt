-- ===== src/Keyboard/Keymap.antt =====
-- include/sys/keymap.h: what a scan code stands for.
use lwos.Common.{ℕ, List, [], ◌∷◌}
use lwos.Keyboard.Keys

-- A row of the table for each scan code: without shift, with shift, and behind 0xe0.
unfoldable pub keymap : List (ℕ × ℕ × ℕ)
keymap =
    (0, 0, 0)
    ∷ (Keys.esc, Keys.esc, 0)
    ∷ (0x31, 0x21, 0)
    ∷ (0x32, 0x40, 0)
    ∷ (0x33, 0x23, 0)
    ∷ (0x34, 0x24, 0)
    ∷ (0x35, 0x25, 0)
    ∷ (0x36, 0x5e, 0)
    ∷ (0x37, 0x26, 0)
    ∷ (0x38, 0x2a, 0)
    ∷ (0x39, 0x28, 0)
    ∷ (0x30, 0x29, 0)
    ∷ (0x2d, 0x5f, 0)
    ∷ (0x3d, 0x2b, 0)
    ∷ (Keys.backspace, Keys.backspace, 0)
    ∷ (Keys.tab, Keys.tab, 0)
    ∷ (0x71, 0x51, 0)
    ∷ (0x77, 0x57, 0)
    ∷ (0x65, 0x45, 0)
    ∷ (0x72, 0x52, 0)
    ∷ (0x74, 0x54, 0)
    ∷ (0x79, 0x59, 0)
    ∷ (0x75, 0x55, 0)
    ∷ (0x69, 0x49, 0)
    ∷ (0x6f, 0x4f, 0)
    ∷ (0x70, 0x50, 0)
    ∷ (0x5b, 0x7b, 0)
    ∷ (0x5d, 0x7d, 0)
    ∷ (Keys.enter, Keys.enter, Keys.pad_enter)
    ∷ (Keys.ctrl_l, Keys.ctrl_l, Keys.ctrl_r)
    ∷ (0x61, 0x41, 0)
    ∷ (0x73, 0x53, 0)
    ∷ (0x64, 0x44, 0)
    ∷ (0x66, 0x46, 0)
    ∷ (0x67, 0x47, 0)
    ∷ (0x68, 0x48, 0)
    ∷ (0x6a, 0x4a, 0)
    ∷ (0x6b, 0x4b, 0)
    ∷ (0x6c, 0x4c, 0)
    ∷ (0x3b, 0x3a, 0)
    ∷ (0x27, 0x22, 0)
    ∷ (0x60, 0x7e, 0)
    ∷ (Keys.shift_l, Keys.shift_l, 0)
    ∷ (0x5c, 0x7c, 0)
    ∷ (0x7a, 0x5a, 0)
    ∷ (0x78, 0x58, 0)
    ∷ (0x63, 0x43, 0)
    ∷ (0x76, 0x56, 0)
    ∷ (0x62, 0x42, 0)
    ∷ (0x6e, 0x4e, 0)
    ∷ (0x6d, 0x4d, 0)
    ∷ (0x2c, 0x3c, 0)
    ∷ (0x2e, 0x3e, 0)
    ∷ (0x2f, 0x3f, Keys.pad_slash)
    ∷ (Keys.shift_r, Keys.shift_r, 0)
    ∷ (0x2a, 0x2a, 0)
    ∷ (Keys.alt_l, Keys.alt_l, Keys.alt_r)
    ∷ (0x20, 0x20, 0)
    ∷ (Keys.caps_lock, Keys.caps_lock, 0)
    ∷ (Keys.f1, Keys.f1, 0)
    ∷ (Keys.f2, Keys.f2, 0)
    ∷ (Keys.f3, Keys.f3, 0)
    ∷ (Keys.f4, Keys.f4, 0)
    ∷ (Keys.f5, Keys.f5, 0)
    ∷ (Keys.f6, Keys.f6, 0)
    ∷ (Keys.f7, Keys.f7, 0)
    ∷ (Keys.f8, Keys.f8, 0)
    ∷ (Keys.f9, Keys.f9, 0)
    ∷ (Keys.f10, Keys.f10, 0)
    ∷ (Keys.num_lock, Keys.num_lock, 0)
    ∷ (Keys.scroll_lock, Keys.scroll_lock, 0)
    ∷ (Keys.pad_home, 0x37, Keys.home)
    ∷ (Keys.pad_up, 0x38, Keys.up)
    ∷ (Keys.pad_pageup, 0x39, Keys.pageup)
    ∷ (Keys.pad_minus, 0x2d, 0)
    ∷ (Keys.pad_left, 0x34, Keys.left)
    ∷ (Keys.pad_mid, 0x35, 0)
    ∷ (Keys.pad_right, 0x36, Keys.right)
    ∷ (Keys.pad_plus, 0x2b, 0)
    ∷ (Keys.pad_end, 0x31, Keys.end)
    ∷ (Keys.pad_down, 0x32, Keys.down)
    ∷ (Keys.pad_pagedown, 0x33, Keys.pagedown)
    ∷ (Keys.pad_ins, 0x30, Keys.insert)
    ∷ (Keys.pad_dot, 0x2e, Keys.delete)
    ∷ (0, 0, 0)
    ∷ (0, 0, 0)
    ∷ (0, 0, 0)
    ∷ (Keys.f11, Keys.f11, 0)
    ∷ (Keys.f12, Keys.f12, 0)
    ∷ (0, 0, 0)
    ∷ (0, 0, 0)
    ∷ (0, 0, Keys.gui_l)
    ∷ (0, 0, Keys.gui_r)
    ∷ (0, 0, Keys.apps)
    ∷ (0, 0, 0)
    ∷ (0, 0, 0)
    ∷ (0, 0, 0)
    ∷ (0, 0, 0)
    ∷ (0, 0, 0)
    ∷ (0, 0, 0)
    ∷ (0, 0, 0)
    ∷ (0, 0, 0)
    ∷ (0, 0, 0)
    ∷ (0, 0, 0)
    ∷ (0, 0, 0)
    ∷ (0, 0, 0)
    ∷ (0, 0, 0)
    ∷ (0, 0, 0)
    ∷ (0, 0, 0)
    ∷ (0, 0, 0)
    ∷ (0, 0, 0)
    ∷ (0, 0, 0)
    ∷ (0, 0, 0)
    ∷ (0, 0, 0)
    ∷ (0, 0, 0)
    ∷ (0, 0, 0)
    ∷ (0, 0, 0)
    ∷ (0, 0, 0)
    ∷ (0, 0, 0)
    ∷ (0, 0, 0)
    ∷ (0, 0, 0)
    ∷ (0, 0, 0)
    ∷ (0, 0, 0)
    ∷ (0, 0, 0)
    ∷ (0, 0, 0)
    ∷ (0, 0, 0)
    ∷ (0, 0, 0)
    ∷ (0, 0, 0)
    ∷ []
