-- ===== src/Kernel/Keyboard/Tests.antt =====
-- The keyboard at concrete scan codes, and the theorems at concrete inputs.
use prettyos.Common.{◌≡◌, true, false, some, arith}
use prettyos.Kernel.Ring.{empty_ring, put}
use prettyos.Kernel.Tty.{World}
use prettyos.Kernel.Tty.Tests.{started}
use prettyos.Kernel.Keyboard.{Keyboard, init_keyboard, keyboard_handler, keyboard_read}
use prettyos.Kernel.Keyboard.Reads.{ReadOne, keyboard_read-ReadOne}

abbrev fresh : Keyboard
fresh = init_keyboard (record {
  kb_in = empty_ring (λ i. 0);
  code_with_E0 = false;
  shift_l = true;
  shift_r = false;
  alt_l = false;
  alt_r = false;
  ctrl_l = false;
  ctrl_r = false;
  caps_lock = false;
  num_lock = false;
  scroll_lock = false;
  column = 0;
})

-- The right Alt key: the byte 0xE0 is read alone, as the break code of a key without a meaning.
abbrev alt_pressed : Keyboard
alt_pressed = keyboard_handler (keyboard_handler fresh 0xe0) 0x38

keyboard_read-ReadOne_example :
    (w' : World) × (k' : Keyboard) × (keyboard_read true started 0 alt_pressed ≡ some (w', k'))
    × ReadOne started 0 alt_pressed w' k'
unfolding keyboard_handler init_keyboard put empty_ring
keyboard_read-ReadOne_example = keyboard_read-ReadOne true started 0 alt_pressed (omega arith)
