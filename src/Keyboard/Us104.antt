-- ===== src/Keyboard/Us104.antt =====
-- The keymap of kernel/keyboard/keymaps/US104.c. A key that it leaves out has the entry 0, 0, 0, 0.
use nulix.Common.{◌+◌}
use nulix.Keyboard.Keycode.{
  key_escape, key_1, key_2, key_3, key_4, key_5, key_6, key_7, key_8, key_9, key_0, key_dash,
  key_equal, key_backspace, key_tab, key_q, key_w, key_e, key_r, key_t, key_y, key_u, key_i, key_o,
  key_p, key_opening_square_bracket, key_closing_square_bracket, key_enter, key_a, key_s, key_d,
  key_f, key_g, key_h, key_j, key_k, key_l, key_colon, key_single_quote, key_backtick,
  key_backslash, key_z, key_x, key_c, key_v, key_b, key_n, key_m, key_comma, key_dot, key_slash,
  key_keypad_wildcard, key_space, key_keypad_7, key_keypad_8, key_keypad_9, key_keypad_dash,
  key_keypad_4, key_keypad_5, key_keypad_6, key_keypad_plus, key_keypad_1, key_keypad_2,
  key_keypad_3, key_keypad_0, key_keypad_dot, key_keypad_enter, key_keypad_slash, Keycode,
}
use nulix.Keyboard.State.{KeymapEntry, entry, no_mod, capslock_flag, numlock_flag}

unfoldable pub us104_getkeymapentry : Keycode → KeymapEntry
us104_getkeymapentry key_escape = entry no_mod 27 0 0
us104_getkeymapentry key_1 = entry 0 49 33 49
us104_getkeymapentry key_2 = entry 0 50 64 50
us104_getkeymapentry key_3 = entry 0 51 35 51
us104_getkeymapentry key_4 = entry 0 52 36 52
us104_getkeymapentry key_5 = entry 0 53 37 53
us104_getkeymapentry key_6 = entry 0 54 94 54
us104_getkeymapentry key_7 = entry 0 55 38 55
us104_getkeymapentry key_8 = entry 0 56 42 56
us104_getkeymapentry key_9 = entry 0 57 40 57
us104_getkeymapentry key_0 = entry 0 48 41 48
us104_getkeymapentry key_dash = entry 0 45 95 0
us104_getkeymapentry key_equal = entry 0 61 43 0
us104_getkeymapentry key_backspace = entry no_mod 8 0 0
us104_getkeymapentry key_tab = entry no_mod 9 0 0
us104_getkeymapentry key_q = entry capslock_flag 113 81 0
us104_getkeymapentry key_w = entry capslock_flag 119 87 0
us104_getkeymapentry key_e = entry capslock_flag 101 69 0
us104_getkeymapentry key_r = entry capslock_flag 114 82 0
us104_getkeymapentry key_t = entry capslock_flag 116 84 0
us104_getkeymapentry key_y = entry capslock_flag 121 89 0
us104_getkeymapentry key_u = entry capslock_flag 117 85 0
us104_getkeymapentry key_i = entry capslock_flag 105 73 0
us104_getkeymapentry key_o = entry capslock_flag 111 79 0
us104_getkeymapentry key_p = entry capslock_flag 112 80 0
us104_getkeymapentry key_opening_square_bracket = entry 0 91 123 0
us104_getkeymapentry key_closing_square_bracket = entry 0 93 125 0
us104_getkeymapentry key_enter = entry no_mod 10 0 0
us104_getkeymapentry key_a = entry capslock_flag 97 65 0
us104_getkeymapentry key_s = entry capslock_flag 115 83 0
us104_getkeymapentry key_d = entry capslock_flag 100 68 0
us104_getkeymapentry key_f = entry capslock_flag 102 70 0
us104_getkeymapentry key_g = entry capslock_flag 103 71 0
us104_getkeymapentry key_h = entry capslock_flag 104 72 0
us104_getkeymapentry key_j = entry capslock_flag 106 74 0
us104_getkeymapentry key_k = entry capslock_flag 107 75 0
us104_getkeymapentry key_l = entry capslock_flag 108 76 0
us104_getkeymapentry key_colon = entry 0 59 58 0
us104_getkeymapentry key_single_quote = entry 0 39 34 0
us104_getkeymapentry key_backtick = entry 0 96 126 0
us104_getkeymapentry key_backslash = entry 0 92 124 0
us104_getkeymapentry key_z = entry capslock_flag 122 90 0
us104_getkeymapentry key_x = entry capslock_flag 120 88 0
us104_getkeymapentry key_c = entry capslock_flag 99 67 0
us104_getkeymapentry key_v = entry capslock_flag 118 86 0
us104_getkeymapentry key_b = entry capslock_flag 98 66 0
us104_getkeymapentry key_n = entry capslock_flag 110 78 0
us104_getkeymapentry key_m = entry capslock_flag 109 77 0
us104_getkeymapentry key_comma = entry 0 44 60 0
us104_getkeymapentry key_dot = entry 0 46 62 0
us104_getkeymapentry key_slash = entry 0 47 63 0
us104_getkeymapentry key_keypad_wildcard = entry no_mod 42 0 0
us104_getkeymapentry key_space = entry no_mod 32 0 0
us104_getkeymapentry key_keypad_7 = entry (numlock_flag + no_mod) 55 0 0
us104_getkeymapentry key_keypad_8 = entry (numlock_flag + no_mod) 56 0 0
us104_getkeymapentry key_keypad_9 = entry (numlock_flag + no_mod) 57 0 0
us104_getkeymapentry key_keypad_dash = entry no_mod 45 0 0
us104_getkeymapentry key_keypad_4 = entry (numlock_flag + no_mod) 52 0 0
us104_getkeymapentry key_keypad_5 = entry (numlock_flag + no_mod) 53 0 0
us104_getkeymapentry key_keypad_6 = entry (numlock_flag + no_mod) 54 0 0
us104_getkeymapentry key_keypad_plus = entry no_mod 43 0 0
us104_getkeymapentry key_keypad_1 = entry (numlock_flag + no_mod) 49 0 0
us104_getkeymapentry key_keypad_2 = entry (numlock_flag + no_mod) 50 0 0
us104_getkeymapentry key_keypad_3 = entry (numlock_flag + no_mod) 51 0 0
us104_getkeymapentry key_keypad_0 = entry (numlock_flag + no_mod) 48 0 0
us104_getkeymapentry key_keypad_dot = entry no_mod 46 0 0
us104_getkeymapentry key_keypad_enter = entry no_mod 10 0 0
us104_getkeymapentry key_keypad_slash = entry no_mod 47 0 0
us104_getkeymapentry _ = entry 0 0 0 0
