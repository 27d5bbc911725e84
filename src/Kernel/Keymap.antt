-- ===== src/Kernel/Keymap.antt =====
-- The keymap of the US keyboard: include/asm-i386/keymap.h, with the key codes of
-- include/asm-i386/keyboard.h.
use prettyos.Common.{ℕ, List, [], ◌∷◌}

abbrev pub esc : ℕ
esc = 0x101

abbrev pub tab : ℕ
tab = 0x102

abbrev pub enter : ℕ
enter = 0x103

abbrev pub backspace : ℕ
backspace = 0x104

abbrev pub gui_l : ℕ
gui_l = 0x105

abbrev pub gui_r : ℕ
gui_r = 0x106

abbrev pub apps : ℕ
apps = 0x107

abbrev pub shift_l : ℕ
shift_l = 0x108

abbrev pub shift_r : ℕ
shift_r = 0x109

abbrev pub ctrl_l : ℕ
ctrl_l = 0x10a

abbrev pub ctrl_r : ℕ
ctrl_r = 0x10b

abbrev pub alt_l : ℕ
alt_l = 0x10c

abbrev pub alt_r : ℕ
alt_r = 0x10d

abbrev pub caps_lock : ℕ
caps_lock = 0x10e

abbrev pub num_lock : ℕ
num_lock = 0x10f

abbrev pub scroll_lock : ℕ
scroll_lock = 0x110

abbrev pub f1 : ℕ
f1 = 0x111

abbrev pub f2 : ℕ
f2 = 0x112

abbrev pub f3 : ℕ
f3 = 0x113

abbrev pub f4 : ℕ
f4 = 0x114

abbrev pub f5 : ℕ
f5 = 0x115

abbrev pub f6 : ℕ
f6 = 0x116

abbrev pub f7 : ℕ
f7 = 0x117

abbrev pub f8 : ℕ
f8 = 0x118

abbrev pub f9 : ℕ
f9 = 0x119

abbrev pub f10 : ℕ
f10 = 0x11a

abbrev pub f11 : ℕ
f11 = 0x11b

abbrev pub f12 : ℕ
f12 = 0x11c

abbrev pub printscreen : ℕ
printscreen = 0x11d

abbrev pub pausebreak : ℕ
pausebreak = 0x11e

abbrev pub insert : ℕ
insert = 0x11f

abbrev pub delete : ℕ
delete = 0x120

abbrev pub home : ℕ
home = 0x121

abbrev pub end : ℕ
end = 0x122

abbrev pub pageup : ℕ
pageup = 0x123

abbrev pub pagedown : ℕ
pagedown = 0x124

abbrev pub up : ℕ
up = 0x125

abbrev pub down : ℕ
down = 0x126

abbrev pub left : ℕ
left = 0x127

abbrev pub right : ℕ
right = 0x128

abbrev pub power : ℕ
power = 0x129

abbrev pub sleep : ℕ
sleep = 0x12a

abbrev pub wake : ℕ
wake = 0x12b

abbrev pub pad_slash : ℕ
pad_slash = 0x12c

abbrev pub pad_star : ℕ
pad_star = 0x12d

abbrev pub pad_minus : ℕ
pad_minus = 0x12e

abbrev pub pad_plus : ℕ
pad_plus = 0x12f

abbrev pub pad_enter : ℕ
pad_enter = 0x130

abbrev pub pad_dot : ℕ
pad_dot = 0x131

abbrev pub pad_0 : ℕ
pad_0 = 0x132

abbrev pub pad_1 : ℕ
pad_1 = 0x133

abbrev pub pad_2 : ℕ
pad_2 = 0x134

abbrev pub pad_3 : ℕ
pad_3 = 0x135

abbrev pub pad_4 : ℕ
pad_4 = 0x136

abbrev pub pad_5 : ℕ
pad_5 = 0x137

abbrev pub pad_6 : ℕ
pad_6 = 0x138

abbrev pub pad_7 : ℕ
pad_7 = 0x139

abbrev pub pad_8 : ℕ
pad_8 = 0x13a

abbrev pub pad_9 : ℕ
pad_9 = 0x13b

abbrev pub pad_up : ℕ
pad_up = pad_8

abbrev pub pad_down : ℕ
pad_down = pad_2

abbrev pub pad_left : ℕ
pad_left = pad_4

abbrev pub pad_right : ℕ
pad_right = pad_6

abbrev pub pad_home : ℕ
pad_home = pad_7

abbrev pub pad_end : ℕ
pad_end = pad_1

abbrev pub pad_pageup : ℕ
pad_pageup = pad_9

abbrev pub pad_pagedown : ℕ
pad_pagedown = pad_3

abbrev pub pad_ins : ℕ
pad_ins = pad_0

abbrev pub pad_mid : ℕ
pad_mid = pad_5

abbrev pub pad_del : ℕ
pad_del = pad_dot

-- A row per scan code: the key, the key with shift, the key after 0xE0.
abbrev pub keymap : List ℕ
keymap =
    0 ∷ 0 ∷ 0 ∷ esc ∷ esc ∷ 0 ∷ 0x31 ∷ 0x21 ∷ 0 ∷ 0x32 ∷ 0x40 ∷ 0 ∷ 0x33 ∷ 0x23 ∷ 0 ∷ 0x34 ∷ 0x24
    ∷ 0 ∷ 0x35 ∷ 0x25 ∷ 0 ∷ 0x36 ∷ 0x5e ∷ 0 ∷ 0x37 ∷ 0x26 ∷ 0 ∷ 0x38 ∷ 0x2a ∷ 0 ∷ 0x39 ∷ 0x28 ∷ 0
    ∷ 0x30 ∷ 0x29 ∷ 0 ∷ 0x2d ∷ 0x5f ∷ 0 ∷ 0x3d ∷ 0x2b ∷ 0 ∷ backspace ∷ backspace ∷ 0 ∷ tab ∷ tab
    ∷ 0 ∷ 0x71 ∷ 0x51 ∷ 0 ∷ 0x77 ∷ 0x57 ∷ 0 ∷ 0x65 ∷ 0x45 ∷ 0 ∷ 0x72 ∷ 0x52 ∷ 0 ∷ 0x74 ∷ 0x54 ∷ 0
    ∷ 0x79 ∷ 0x59 ∷ 0 ∷ 0x75 ∷ 0x55 ∷ 0 ∷ 0x69 ∷ 0x49 ∷ 0 ∷ 0x6f ∷ 0x4f ∷ 0 ∷ 0x70 ∷ 0x50 ∷ 0 ∷ 0x5b
    ∷ 0x7b ∷ 0 ∷ 0x5d ∷ 0x7d ∷ 0 ∷ enter ∷ enter ∷ pad_enter ∷ ctrl_l ∷ ctrl_l ∷ ctrl_r ∷ 0x61
    ∷ 0x41 ∷ 0 ∷ 0x73 ∷ 0x53 ∷ 0 ∷ 0x64 ∷ 0x44 ∷ 0 ∷ 0x66 ∷ 0x46 ∷ 0 ∷ 0x67 ∷ 0x47 ∷ 0 ∷ 0x68 ∷ 0x48
    ∷ 0 ∷ 0x6a ∷ 0x4a ∷ 0 ∷ 0x6b ∷ 0x4b ∷ 0 ∷ 0x6c ∷ 0x4c ∷ 0 ∷ 0x3b ∷ 0x3a ∷ 0 ∷ 0x27 ∷ 0x22 ∷ 0
    ∷ 0x60 ∷ 0x7e ∷ 0 ∷ shift_l ∷ shift_l ∷ 0 ∷ 0x5c ∷ 0x7c ∷ 0 ∷ 0x7a ∷ 0x5a ∷ 0 ∷ 0x78 ∷ 0x58 ∷ 0
    ∷ 0x63 ∷ 0x43 ∷ 0 ∷ 0x76 ∷ 0x56 ∷ 0 ∷ 0x62 ∷ 0x42 ∷ 0 ∷ 0x6e ∷ 0x4e ∷ 0 ∷ 0x6d ∷ 0x4d ∷ 0 ∷ 0x2c
    ∷ 0x3c ∷ 0 ∷ 0x2e ∷ 0x3e ∷ 0 ∷ 0x2f ∷ 0x3f ∷ pad_slash ∷ shift_r ∷ shift_r ∷ 0 ∷ 0x2a ∷ 0x2a ∷ 0
    ∷ alt_l ∷ alt_l ∷ alt_r ∷ 0x20 ∷ 0x20 ∷ 0 ∷ caps_lock ∷ caps_lock ∷ 0 ∷ f1 ∷ f1 ∷ 0 ∷ f2 ∷ f2
    ∷ 0 ∷ f3 ∷ f3 ∷ 0 ∷ f4 ∷ f4 ∷ 0 ∷ f5 ∷ f5 ∷ 0 ∷ f6 ∷ f6 ∷ 0 ∷ f7 ∷ f7 ∷ 0 ∷ f8 ∷ f8 ∷ 0 ∷ f9
    ∷ f9 ∷ 0 ∷ f10 ∷ f10 ∷ 0 ∷ num_lock ∷ num_lock ∷ 0 ∷ scroll_lock ∷ scroll_lock ∷ 0 ∷ pad_home
    ∷ 0x37 ∷ home ∷ pad_up ∷ 0x38 ∷ up ∷ pad_pageup ∷ 0x39 ∷ pageup ∷ pad_minus ∷ 0x2d ∷ 0
    ∷ pad_left ∷ 0x34 ∷ left ∷ pad_mid ∷ 0x35 ∷ 0 ∷ pad_right ∷ 0x36 ∷ right ∷ pad_plus ∷ 0x2b ∷ 0
    ∷ pad_end ∷ 0x31 ∷ end ∷ pad_down ∷ 0x32 ∷ down ∷ pad_pagedown ∷ 0x33 ∷ pagedown ∷ pad_ins
    ∷ 0x30 ∷ insert ∷ pad_dot ∷ 0x2e ∷ delete ∷ 0 ∷ 0 ∷ 0 ∷ 0 ∷ 0 ∷ 0 ∷ 0 ∷ 0 ∷ 0 ∷ f11 ∷ f11 ∷ 0
    ∷ f12 ∷ f12 ∷ 0 ∷ 0 ∷ 0 ∷ 0 ∷ 0 ∷ 0 ∷ 0 ∷ 0 ∷ 0 ∷ gui_l ∷ 0 ∷ 0 ∷ gui_r ∷ 0 ∷ 0 ∷ apps ∷ 0 ∷ 0
    ∷ 0 ∷ 0 ∷ 0 ∷ 0 ∷ 0 ∷ 0 ∷ 0 ∷ 0 ∷ 0 ∷ 0 ∷ 0 ∷ 0 ∷ 0 ∷ 0 ∷ 0 ∷ 0 ∷ 0 ∷ 0 ∷ 0 ∷ 0 ∷ 0 ∷ 0 ∷ 0 ∷ 0
    ∷ 0 ∷ 0 ∷ 0 ∷ 0 ∷ 0 ∷ 0 ∷ 0 ∷ 0 ∷ 0 ∷ 0 ∷ 0 ∷ 0 ∷ 0 ∷ 0 ∷ 0 ∷ 0 ∷ 0 ∷ 0 ∷ 0 ∷ 0 ∷ 0 ∷ 0 ∷ 0 ∷ 0
    ∷ 0 ∷ 0 ∷ 0 ∷ 0 ∷ 0 ∷ 0 ∷ 0 ∷ 0 ∷ 0 ∷ 0 ∷ 0 ∷ 0 ∷ 0 ∷ 0 ∷ 0 ∷ 0 ∷ 0 ∷ 0 ∷ 0 ∷ 0 ∷ 0 ∷ 0 ∷ 0 ∷ 0
    ∷ 0 ∷ 0 ∷ 0 ∷ 0 ∷ 0 ∷ 0 ∷ 0 ∷ 0 ∷ 0 ∷ 0 ∷ 0 ∷ 0 ∷ 0 ∷ 0 ∷ 0 ∷ 0 ∷ 0 ∷ 0 ∷ 0 ∷ 0 ∷ 0 ∷ 0 ∷ 0 ∷ 0
    ∷ 0 ∷ 0 ∷ 0 ∷ 0 ∷ []
