-- ===== src/Keyboard/Keycode.antt =====
-- The key codes of include/kernel/keyboard.h: the enumeration, and the numbers that C gives it.
use nulix.Common.{ℕ, Bool, ◌==◌}

pub data Keycode : Type 0 where
  unknown : Keycode
  key_escape : Keycode
  key_1 : Keycode
  key_2 : Keycode
  key_3 : Keycode
  key_4 : Keycode
  key_5 : Keycode
  key_6 : Keycode
  key_7 : Keycode
  key_8 : Keycode
  key_9 : Keycode
  key_0 : Keycode
  key_dash : Keycode
  key_equal : Keycode
  key_backspace : Keycode
  key_tab : Keycode
  key_q : Keycode
  key_w : Keycode
  key_e : Keycode
  key_r : Keycode
  key_t : Keycode
  key_y : Keycode
  key_u : Keycode
  key_i : Keycode
  key_o : Keycode
  key_p : Keycode
  key_opening_square_bracket : Keycode
  key_closing_square_bracket : Keycode
  key_enter : Keycode
  key_left_ctrl : Keycode
  key_a : Keycode
  key_s : Keycode
  key_d : Keycode
  key_f : Keycode
  key_g : Keycode
  key_h : Keycode
  key_j : Keycode
  key_k : Keycode
  key_l : Keycode
  key_colon : Keycode
  key_single_quote : Keycode
  key_backtick : Keycode
  key_left_shift : Keycode
  key_backslash : Keycode
  key_z : Keycode
  key_x : Keycode
  key_c : Keycode
  key_v : Keycode
  key_b : Keycode
  key_n : Keycode
  key_m : Keycode
  key_comma : Keycode
  key_dot : Keycode
  key_slash : Keycode
  key_right_shift : Keycode
  key_keypad_wildcard : Keycode
  key_left_alt : Keycode
  key_space : Keycode
  key_caps_lock : Keycode
  key_f1 : Keycode
  key_f2 : Keycode
  key_f3 : Keycode
  key_f4 : Keycode
  key_f5 : Keycode
  key_f6 : Keycode
  key_f7 : Keycode
  key_f8 : Keycode
  key_f9 : Keycode
  key_f10 : Keycode
  key_numlock : Keycode
  key_scrolllock : Keycode
  key_keypad_7 : Keycode
  key_keypad_8 : Keycode
  key_keypad_9 : Keycode
  key_keypad_dash : Keycode
  key_keypad_4 : Keycode
  key_keypad_5 : Keycode
  key_keypad_6 : Keycode
  key_keypad_plus : Keycode
  key_keypad_1 : Keycode
  key_keypad_2 : Keycode
  key_keypad_3 : Keycode
  key_keypad_0 : Keycode
  key_keypad_dot : Keycode
  key_f11 : Keycode
  key_f12 : Keycode
  key_multimedia_previous_track : Keycode
  key_multimedia_next_track : Keycode
  key_keypad_enter : Keycode
  key_right_ctrl : Keycode
  key_multimedia_mute : Keycode
  key_multimedia_calculator : Keycode
  key_multimedia_play : Keycode
  key_multimedia_stop : Keycode
  key_multimedia_volume_down : Keycode
  key_multimedia_volume_up : Keycode
  key_multimedia_home_www : Keycode
  key_keypad_slash : Keycode
  key_right_alt : Keycode
  key_home : Keycode
  key_cursor_up : Keycode
  key_page_up : Keycode
  key_cursor_left : Keycode
  key_cursor_right : Keycode
  key_end : Keycode
  key_cursor_down : Keycode
  key_page_down : Keycode
  key_insert : Keycode
  key_delete : Keycode
  key_left_gui : Keycode
  key_right_gui : Keycode
  key_apps : Keycode
  key_acpi_power : Keycode
  key_acpi_sleep : Keycode
  key_acpi_wake : Keycode
  key_multimedia_www_search : Keycode
  key_multimedia_www_favorites : Keycode
  key_multimedia_www_refresh : Keycode
  key_multimedia_www_stop : Keycode
  key_multimedia_www_forward : Keycode
  key_multimedia_www_back : Keycode
  key_multimedia_my_computer : Keycode
  key_multimedia_email : Keycode
  key_multimedia_media_select : Keycode

-- The number that stands for a key code, by its place in the enumeration.
abbrev pub code : Keycode → ℕ
code unknown = 0
code key_escape = 1
code key_1 = 2
code key_2 = 3
code key_3 = 4
code key_4 = 5
code key_5 = 6
code key_6 = 7
code key_7 = 8
code key_8 = 9
code key_9 = 10
code key_0 = 11
code key_dash = 12
code key_equal = 13
code key_backspace = 14
code key_tab = 15
code key_q = 16
code key_w = 17
code key_e = 18
code key_r = 19
code key_t = 20
code key_y = 21
code key_u = 22
code key_i = 23
code key_o = 24
code key_p = 25
code key_opening_square_bracket = 26
code key_closing_square_bracket = 27
code key_enter = 28
code key_left_ctrl = 29
code key_a = 30
code key_s = 31
code key_d = 32
code key_f = 33
code key_g = 34
code key_h = 35
code key_j = 36
code key_k = 37
code key_l = 38
code key_colon = 39
code key_single_quote = 40
code key_backtick = 41
code key_left_shift = 42
code key_backslash = 43
code key_z = 44
code key_x = 45
code key_c = 46
code key_v = 47
code key_b = 48
code key_n = 49
code key_m = 50
code key_comma = 51
code key_dot = 52
code key_slash = 53
code key_right_shift = 54
code key_keypad_wildcard = 55
code key_left_alt = 56
code key_space = 57
code key_caps_lock = 58
code key_f1 = 59
code key_f2 = 60
code key_f3 = 61
code key_f4 = 62
code key_f5 = 63
code key_f6 = 64
code key_f7 = 65
code key_f8 = 66
code key_f9 = 67
code key_f10 = 68
code key_numlock = 69
code key_scrolllock = 70
code key_keypad_7 = 71
code key_keypad_8 = 72
code key_keypad_9 = 73
code key_keypad_dash = 74
code key_keypad_4 = 75
code key_keypad_5 = 76
code key_keypad_6 = 77
code key_keypad_plus = 78
code key_keypad_1 = 79
code key_keypad_2 = 80
code key_keypad_3 = 81
code key_keypad_0 = 82
code key_keypad_dot = 83
code key_f11 = 84
code key_f12 = 85
code key_multimedia_previous_track = 86
code key_multimedia_next_track = 87
code key_keypad_enter = 88
code key_right_ctrl = 89
code key_multimedia_mute = 90
code key_multimedia_calculator = 91
code key_multimedia_play = 92
code key_multimedia_stop = 93
code key_multimedia_volume_down = 94
code key_multimedia_volume_up = 95
code key_multimedia_home_www = 96
code key_keypad_slash = 97
code key_right_alt = 98
code key_home = 99
code key_cursor_up = 100
code key_page_up = 101
code key_cursor_left = 102
code key_cursor_right = 103
code key_end = 104
code key_cursor_down = 105
code key_page_down = 106
code key_insert = 107
code key_delete = 108
code key_left_gui = 109
code key_right_gui = 110
code key_apps = 111
code key_acpi_power = 112
code key_acpi_sleep = 113
code key_acpi_wake = 114
code key_multimedia_www_search = 115
code key_multimedia_www_favorites = 116
code key_multimedia_www_refresh = 117
code key_multimedia_www_stop = 118
code key_multimedia_www_forward = 119
code key_multimedia_www_back = 120
code key_multimedia_my_computer = 121
code key_multimedia_email = 122
code key_multimedia_media_select = 123

abbrev pub same_key : Keycode → Keycode → Bool
same_key a b = code a == code b
