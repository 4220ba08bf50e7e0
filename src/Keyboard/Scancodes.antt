-- ===== src/Keyboard/Scancodes.antt =====
-- The tables of kernel/keyboard/scancodes.c. An entry that the source leaves out is 0, `unknown`.
use nulix.Common.{List, [], ◌∷◌}
use nulix.Keyboard.Keycode.{
  unknown, key_escape, key_1, key_2, key_3, key_4, key_5, key_6, key_7, key_8, key_9, key_0,
  key_dash, key_equal, key_backspace, key_tab, key_q, key_w, key_e, key_r, key_t, key_y, key_u,
  key_i, key_o, key_p, key_opening_square_bracket, key_closing_square_bracket, key_enter,
  key_left_ctrl, key_a, key_s, key_d, key_f, key_g, key_h, key_j, key_k, key_l, key_colon,
  key_single_quote, key_backtick, key_left_shift, key_backslash, key_z, key_x, key_c, key_v, key_b,
  key_n, key_m, key_comma, key_dot, key_slash, key_right_shift, key_keypad_wildcard, key_left_alt,
  key_space, key_caps_lock, key_f1, key_f2, key_f3, key_f4, key_f5, key_f6, key_f7, key_f8, key_f9,
  key_f10, key_numlock, key_scrolllock, key_keypad_7, key_keypad_8, key_keypad_9, key_keypad_dash,
  key_keypad_4, key_keypad_5, key_keypad_6, key_keypad_plus, key_keypad_1, key_keypad_2,
  key_keypad_3, key_keypad_0, key_keypad_dot, key_f11, key_f12, key_multimedia_previous_track,
  key_multimedia_next_track, key_keypad_enter, key_right_ctrl, key_multimedia_mute,
  key_multimedia_calculator, key_multimedia_play, key_multimedia_stop, key_multimedia_volume_down,
  key_multimedia_volume_up, key_multimedia_home_www, key_keypad_slash, key_right_alt, key_home,
  key_cursor_up, key_page_up, key_cursor_left, key_cursor_right, key_end, key_cursor_down,
  key_page_down, key_insert, key_delete, key_left_gui, key_right_gui, key_apps, key_acpi_power,
  key_acpi_sleep, key_acpi_wake, key_multimedia_www_search, key_multimedia_www_favorites,
  key_multimedia_www_refresh, key_multimedia_www_stop, key_multimedia_www_forward,
  key_multimedia_www_back, key_multimedia_my_computer, key_multimedia_email,
  key_multimedia_media_select, Keycode,
}

abbrev pub kbd_reg_keycodes : List Keycode
kbd_reg_keycodes =
    unknown ∷ key_escape ∷ key_1 ∷ key_2 ∷ key_3 ∷ key_4 ∷ key_5 ∷ key_6 ∷ key_7 ∷ key_8 ∷ key_9
    ∷ key_0 ∷ key_dash ∷ key_equal ∷ key_backspace ∷ key_tab ∷ key_q ∷ key_w ∷ key_e ∷ key_r ∷ key_t
    ∷ key_y ∷ key_u ∷ key_i ∷ key_o ∷ key_p ∷ key_opening_square_bracket
    ∷ key_closing_square_bracket ∷ key_enter ∷ key_left_ctrl ∷ key_a ∷ key_s ∷ key_d ∷ key_f ∷ key_g
    ∷ key_h ∷ key_j ∷ key_k ∷ key_l ∷ key_colon ∷ key_single_quote ∷ key_backtick ∷ key_left_shift
    ∷ key_backslash ∷ key_z ∷ key_x ∷ key_c ∷ key_v ∷ key_b ∷ key_n ∷ key_m ∷ key_comma ∷ key_dot
    ∷ key_slash ∷ key_right_shift ∷ key_keypad_wildcard ∷ key_left_alt ∷ key_space ∷ key_caps_lock
    ∷ key_f1 ∷ key_f2 ∷ key_f3 ∷ key_f4 ∷ key_f5 ∷ key_f6 ∷ key_f7 ∷ key_f8 ∷ key_f9 ∷ key_f10
    ∷ key_numlock ∷ key_scrolllock ∷ key_keypad_7 ∷ key_keypad_8 ∷ key_keypad_9 ∷ key_keypad_dash
    ∷ key_keypad_4 ∷ key_keypad_5 ∷ key_keypad_6 ∷ key_keypad_plus ∷ key_keypad_1 ∷ key_keypad_2
    ∷ key_keypad_3 ∷ key_keypad_0 ∷ key_keypad_dot ∷ unknown ∷ unknown ∷ unknown ∷ key_f11 ∷ key_f12
    ∷ []

abbrev pub kbd_ext_keycodes : List Keycode
kbd_ext_keycodes =
    unknown ∷ unknown ∷ unknown ∷ unknown ∷ unknown ∷ unknown ∷ unknown ∷ unknown ∷ unknown
    ∷ unknown ∷ unknown ∷ unknown ∷ unknown ∷ unknown ∷ unknown ∷ unknown
    ∷ key_multimedia_previous_track ∷ unknown ∷ unknown ∷ unknown ∷ unknown ∷ unknown ∷ unknown
    ∷ unknown ∷ unknown ∷ key_multimedia_next_track ∷ unknown ∷ unknown ∷ key_keypad_enter
    ∷ key_right_ctrl ∷ unknown ∷ unknown ∷ key_multimedia_mute ∷ key_multimedia_calculator
    ∷ key_multimedia_play ∷ unknown ∷ key_multimedia_stop ∷ unknown ∷ unknown ∷ unknown ∷ unknown
    ∷ unknown ∷ unknown ∷ unknown ∷ unknown ∷ unknown ∷ key_multimedia_volume_down ∷ unknown
    ∷ key_multimedia_volume_up ∷ unknown ∷ key_multimedia_home_www ∷ unknown ∷ unknown
    ∷ key_keypad_slash ∷ unknown ∷ unknown ∷ key_right_alt ∷ unknown ∷ unknown ∷ unknown ∷ unknown
    ∷ unknown ∷ unknown ∷ unknown ∷ unknown ∷ unknown ∷ unknown ∷ unknown ∷ unknown ∷ unknown
    ∷ unknown ∷ key_home ∷ key_cursor_up ∷ key_page_up ∷ unknown ∷ key_cursor_left ∷ unknown
    ∷ key_cursor_right ∷ unknown ∷ key_end ∷ key_cursor_down ∷ key_page_down ∷ key_insert
    ∷ key_delete ∷ unknown ∷ unknown ∷ unknown ∷ unknown ∷ unknown ∷ unknown ∷ unknown
    ∷ key_left_gui ∷ key_right_gui ∷ key_apps ∷ key_acpi_power ∷ key_acpi_sleep ∷ unknown ∷ unknown
    ∷ unknown ∷ key_acpi_wake ∷ unknown ∷ key_multimedia_www_search ∷ key_multimedia_www_favorites
    ∷ key_multimedia_www_refresh ∷ key_multimedia_www_stop ∷ key_multimedia_www_forward
    ∷ key_multimedia_www_back ∷ key_multimedia_my_computer ∷ key_multimedia_email
    ∷ key_multimedia_media_select ∷ []
