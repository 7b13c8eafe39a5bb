-- ===== src/Ps2/Scancodes.antt =====
-- The cases of `ps2_translate_keycode` in kernel/src/iodev/hid/ps2/ps2_kbd.c: scan codes of set 2,
-- the bytes of one key press or release as one number, with their key codes.
use fenestella.Prelude.{ℕ, List, [], ◌∷◌, bit_or}
use fenestella.Hid.Keys.{
  hid_keycode_acpi_power, hid_keycode_acpi_sleep, hid_keycode_acpi_wake, hid_keycode_backslash,
  hid_keycode_backspace, hid_keycode_backtick, hid_keycode_capslock, hid_keycode_char_a,
  hid_keycode_char_b, hid_keycode_char_c, hid_keycode_char_d, hid_keycode_char_e,
  hid_keycode_char_f, hid_keycode_char_g, hid_keycode_char_h, hid_keycode_char_i,
  hid_keycode_char_j, hid_keycode_char_k, hid_keycode_char_l, hid_keycode_char_m,
  hid_keycode_char_n, hid_keycode_char_o, hid_keycode_char_p, hid_keycode_char_q,
  hid_keycode_char_r, hid_keycode_char_s, hid_keycode_char_t, hid_keycode_char_u,
  hid_keycode_char_v, hid_keycode_char_w, hid_keycode_char_x, hid_keycode_char_y,
  hid_keycode_char_z, hid_keycode_comma, hid_keycode_delete, hid_keycode_down, hid_keycode_end,
  hid_keycode_enter, hid_keycode_equals, hid_keycode_escape, hid_keycode_f1, hid_keycode_f10,
  hid_keycode_f11, hid_keycode_f12, hid_keycode_f2, hid_keycode_f3, hid_keycode_f4, hid_keycode_f5,
  hid_keycode_f6, hid_keycode_f7, hid_keycode_f8, hid_keycode_f9, hid_keycode_home,
  hid_keycode_insert, hid_keycode_kp_0, hid_keycode_kp_1, hid_keycode_kp_2, hid_keycode_kp_3,
  hid_keycode_kp_4, hid_keycode_kp_5, hid_keycode_kp_6, hid_keycode_kp_7, hid_keycode_kp_8,
  hid_keycode_kp_9, hid_keycode_kp_asterisk, hid_keycode_kp_enter, hid_keycode_kp_minus,
  hid_keycode_kp_period, hid_keycode_kp_plus, hid_keycode_kp_slash, hid_keycode_lbracket,
  hid_keycode_left, hid_keycode_left_alt, hid_keycode_left_ctrl, hid_keycode_left_shift,
  hid_keycode_media_apps, hid_keycode_media_calc, hid_keycode_media_favs, hid_keycode_media_mail,
  hid_keycode_media_mute, hid_keycode_media_mypc, hid_keycode_media_playpause,
  hid_keycode_media_search, hid_keycode_media_select, hid_keycode_media_stop, hid_keycode_minus,
  hid_keycode_num0, hid_keycode_num1, hid_keycode_num2, hid_keycode_num3, hid_keycode_num4,
  hid_keycode_num5, hid_keycode_num6, hid_keycode_num7, hid_keycode_num8, hid_keycode_num9,
  hid_keycode_numlock, hid_keycode_pagedown, hid_keycode_pageup, hid_keycode_pause,
  hid_keycode_period, hid_keycode_printscreen, hid_keycode_rbracket, hid_keycode_right,
  hid_keycode_right_alt, hid_keycode_right_ctrl, hid_keycode_right_shift, hid_keycode_scrolllock,
  hid_keycode_semicolon, hid_keycode_singlequote, hid_keycode_slash, hid_keycode_space,
  hid_keycode_super, hid_keycode_tab, hid_keycode_track_next, hid_keycode_track_prev,
  hid_keycode_up, hid_keycode_volume_down, hid_keycode_volume_up, hid_keycode_www_back,
  hid_keycode_www_forward, hid_keycode_www_home, hid_keycode_www_refresh, hid_keycode_www_stop,
}

-- The highest bit of a key code is set if the key is released.
abbrev released : ℕ → ℕ
released key = bit_or 0x80 key

abbrev pub make_scancodes : List (ℕ × ℕ)
make_scancodes =
    (0x1, hid_keycode_f9)
    ∷ (0x3, hid_keycode_f5)
    ∷ (0x4, hid_keycode_f3)
    ∷ (0x5, hid_keycode_f1)
    ∷ (0x6, hid_keycode_f2)
    ∷ (0x7, hid_keycode_f12)
    ∷ (0x9, hid_keycode_f10)
    ∷ (0xa, hid_keycode_f8)
    ∷ (0xb, hid_keycode_f6)
    ∷ (0xc, hid_keycode_f4)
    ∷ (0xd, hid_keycode_tab)
    ∷ (0xe, hid_keycode_backtick)
    ∷ (0x11, hid_keycode_left_alt)
    ∷ (0x12, hid_keycode_left_shift)
    ∷ (0x14, hid_keycode_left_ctrl)
    ∷ (0x15, hid_keycode_char_q)
    ∷ (0x16, hid_keycode_num1)
    ∷ (0x1a, hid_keycode_char_z)
    ∷ (0x1b, hid_keycode_char_s)
    ∷ (0x1c, hid_keycode_char_a)
    ∷ (0x1d, hid_keycode_char_w)
    ∷ (0x1e, hid_keycode_num2)
    ∷ (0x21, hid_keycode_char_c)
    ∷ (0x22, hid_keycode_char_x)
    ∷ (0x23, hid_keycode_char_d)
    ∷ (0x24, hid_keycode_char_e)
    ∷ (0x25, hid_keycode_num4)
    ∷ (0x26, hid_keycode_num3)
    ∷ (0x29, hid_keycode_space)
    ∷ (0x2a, hid_keycode_char_v)
    ∷ (0x2b, hid_keycode_char_f)
    ∷ (0x2c, hid_keycode_char_t)
    ∷ (0x2d, hid_keycode_char_r)
    ∷ (0x2e, hid_keycode_num5)
    ∷ (0x31, hid_keycode_char_n)
    ∷ (0x32, hid_keycode_char_b)
    ∷ (0x33, hid_keycode_char_h)
    ∷ (0x34, hid_keycode_char_g)
    ∷ (0x35, hid_keycode_char_y)
    ∷ (0x36, hid_keycode_num6)
    ∷ (0x3a, hid_keycode_char_m)
    ∷ (0x3b, hid_keycode_char_j)
    ∷ (0x3c, hid_keycode_char_u)
    ∷ (0x3d, hid_keycode_num7)
    ∷ (0x3e, hid_keycode_num8)
    ∷ (0x41, hid_keycode_comma)
    ∷ (0x42, hid_keycode_char_k)
    ∷ (0x43, hid_keycode_char_i)
    ∷ (0x44, hid_keycode_char_o)
    ∷ (0x45, hid_keycode_num0)
    ∷ (0x46, hid_keycode_num9)
    ∷ (0x49, hid_keycode_period)
    ∷ (0x4a, hid_keycode_slash)
    ∷ (0x4b, hid_keycode_char_l)
    ∷ (0x4c, hid_keycode_semicolon)
    ∷ (0x4d, hid_keycode_char_p)
    ∷ (0x4e, hid_keycode_minus)
    ∷ (0x52, hid_keycode_singlequote)
    ∷ (0x54, hid_keycode_lbracket)
    ∷ (0x55, hid_keycode_equals)
    ∷ (0x58, hid_keycode_capslock)
    ∷ (0x59, hid_keycode_right_shift)
    ∷ (0x5a, hid_keycode_enter)
    ∷ (0x5b, hid_keycode_rbracket)
    ∷ (0x5d, hid_keycode_backslash)
    ∷ (0x66, hid_keycode_backspace)
    ∷ (0x69, hid_keycode_kp_1)
    ∷ (0x6b, hid_keycode_kp_4)
    ∷ (0x6c, hid_keycode_kp_7)
    ∷ (0x70, hid_keycode_kp_0)
    ∷ (0x71, hid_keycode_kp_period)
    ∷ (0x72, hid_keycode_kp_2)
    ∷ (0x73, hid_keycode_kp_5)
    ∷ (0x74, hid_keycode_kp_6)
    ∷ (0x75, hid_keycode_kp_8)
    ∷ (0x76, hid_keycode_escape)
    ∷ (0x77, hid_keycode_numlock)
    ∷ (0x78, hid_keycode_f11)
    ∷ (0x79, hid_keycode_kp_plus)
    ∷ (0x7a, hid_keycode_kp_3)
    ∷ (0x7b, hid_keycode_kp_minus)
    ∷ (0x7c, hid_keycode_kp_asterisk)
    ∷ (0x7d, hid_keycode_kp_9)
    ∷ (0x7e, hid_keycode_scrolllock)
    ∷ (0x83, hid_keycode_f7)
    ∷ []

abbrev pub extended_scancodes : List (ℕ × ℕ)
extended_scancodes =
    (0xe010, hid_keycode_media_search)
    ∷ (0xe011, hid_keycode_right_alt)
    ∷ (0xe014, hid_keycode_right_ctrl)
    ∷ (0xe015, hid_keycode_track_prev)
    ∷ (0xe018, hid_keycode_media_favs)
    ∷ (0xe01f, hid_keycode_super)
    ∷ (0xe020, hid_keycode_www_refresh)
    ∷ (0xe021, hid_keycode_volume_down)
    ∷ (0xe023, hid_keycode_media_mute)
    ∷ (0xe027, hid_keycode_super)
    ∷ (0xe028, hid_keycode_www_stop)
    ∷ (0xe02b, hid_keycode_media_calc)
    ∷ (0xe02f, hid_keycode_media_apps)
    ∷ (0xe030, hid_keycode_www_forward)
    ∷ (0xe032, hid_keycode_volume_up)
    ∷ (0xe034, hid_keycode_media_playpause)
    ∷ (0xe037, hid_keycode_acpi_power)
    ∷ (0xe038, hid_keycode_www_back)
    ∷ (0xe03a, hid_keycode_www_home)
    ∷ (0xe03b, hid_keycode_media_stop)
    ∷ (0xe03f, hid_keycode_acpi_sleep)
    ∷ (0xe040, hid_keycode_media_mypc)
    ∷ (0xe048, hid_keycode_media_mail)
    ∷ (0xe04a, hid_keycode_kp_slash)
    ∷ (0xe04d, hid_keycode_track_next)
    ∷ (0xe050, hid_keycode_media_select)
    ∷ (0xe05a, hid_keycode_kp_enter)
    ∷ (0xe05e, hid_keycode_acpi_wake)
    ∷ (0xe069, hid_keycode_end)
    ∷ (0xe06b, hid_keycode_left)
    ∷ (0xe06c, hid_keycode_home)
    ∷ (0xe070, hid_keycode_insert)
    ∷ (0xe071, hid_keycode_delete)
    ∷ (0xe072, hid_keycode_down)
    ∷ (0xe074, hid_keycode_right)
    ∷ (0xe075, hid_keycode_up)
    ∷ (0xe07a, hid_keycode_pagedown)
    ∷ (0xe07d, hid_keycode_pageup)
    ∷ []

abbrev pub break_scancodes : List (ℕ × ℕ)
break_scancodes =
    (0xf001, released hid_keycode_f9)
    ∷ (0xf003, released hid_keycode_f5)
    ∷ (0xf004, released hid_keycode_f3)
    ∷ (0xf005, released hid_keycode_f1)
    ∷ (0xf006, released hid_keycode_f2)
    ∷ (0xf007, released hid_keycode_f12)
    ∷ (0xf009, released hid_keycode_f10)
    ∷ (0xf00a, released hid_keycode_f8)
    ∷ (0xf00b, released hid_keycode_f6)
    ∷ (0xf00c, released hid_keycode_f4)
    ∷ (0xf00d, released hid_keycode_tab)
    ∷ (0xf00e, released hid_keycode_backtick)
    ∷ (0xf011, released hid_keycode_left_alt)
    ∷ (0xf012, released hid_keycode_left_shift)
    ∷ (0xf014, released hid_keycode_left_ctrl)
    ∷ (0xf015, released hid_keycode_char_q)
    ∷ (0xf016, released hid_keycode_num1)
    ∷ (0xf01a, released hid_keycode_char_z)
    ∷ (0xf01b, released hid_keycode_char_s)
    ∷ (0xf01c, released hid_keycode_char_a)
    ∷ (0xf01d, released hid_keycode_char_w)
    ∷ (0xf01e, released hid_keycode_num2)
    ∷ (0xf021, released hid_keycode_char_c)
    ∷ (0xf022, released hid_keycode_char_x)
    ∷ (0xf023, released hid_keycode_char_d)
    ∷ (0xf024, released hid_keycode_char_e)
    ∷ (0xf025, released hid_keycode_num4)
    ∷ (0xf026, released hid_keycode_num3)
    ∷ (0xf029, released hid_keycode_space)
    ∷ (0xf02a, released hid_keycode_char_v)
    ∷ (0xf02b, released hid_keycode_char_f)
    ∷ (0xf02c, released hid_keycode_char_t)
    ∷ (0xf02d, released hid_keycode_char_r)
    ∷ (0xf02e, released hid_keycode_num5)
    ∷ (0xf031, released hid_keycode_char_n)
    ∷ (0xf032, released hid_keycode_char_b)
    ∷ (0xf033, released hid_keycode_char_h)
    ∷ (0xf034, released hid_keycode_char_g)
    ∷ (0xf035, released hid_keycode_char_y)
    ∷ (0xf036, released hid_keycode_num6)
    ∷ (0xf03a, released hid_keycode_char_m)
    ∷ (0xf03b, released hid_keycode_char_j)
    ∷ (0xf03c, released hid_keycode_char_u)
    ∷ (0xf03d, released hid_keycode_num7)
    ∷ (0xf03e, released hid_keycode_num8)
    ∷ (0xf041, released hid_keycode_comma)
    ∷ (0xf042, released hid_keycode_char_k)
    ∷ (0xf043, released hid_keycode_char_i)
    ∷ (0xf044, released hid_keycode_char_o)
    ∷ (0xf045, released hid_keycode_num0)
    ∷ (0xf046, released hid_keycode_num9)
    ∷ (0xf049, released hid_keycode_period)
    ∷ (0xf04a, released hid_keycode_slash)
    ∷ (0xf04b, released hid_keycode_char_l)
    ∷ (0xf04c, released hid_keycode_semicolon)
    ∷ (0xf04d, released hid_keycode_char_p)
    ∷ (0xf04e, released hid_keycode_minus)
    ∷ (0xf052, released hid_keycode_singlequote)
    ∷ (0xf054, released hid_keycode_lbracket)
    ∷ (0xf055, released hid_keycode_equals)
    ∷ (0xf058, released hid_keycode_capslock)
    ∷ (0xf059, released hid_keycode_right_shift)
    ∷ (0xf05a, released hid_keycode_enter)
    ∷ (0xf05b, released hid_keycode_rbracket)
    ∷ (0xf05d, released hid_keycode_backslash)
    ∷ (0xf066, released hid_keycode_backspace)
    ∷ (0xf069, released hid_keycode_kp_1)
    ∷ (0xf06b, released hid_keycode_kp_4)
    ∷ (0xf06c, released hid_keycode_kp_7)
    ∷ (0xf070, released hid_keycode_kp_0)
    ∷ (0xf071, released hid_keycode_kp_period)
    ∷ (0xf072, released hid_keycode_kp_2)
    ∷ (0xf073, released hid_keycode_kp_5)
    ∷ (0xf074, released hid_keycode_kp_6)
    ∷ (0xf075, released hid_keycode_kp_8)
    ∷ (0xf076, released hid_keycode_escape)
    ∷ (0xf077, released hid_keycode_numlock)
    ∷ (0xf078, released hid_keycode_f11)
    ∷ (0xf079, released hid_keycode_kp_plus)
    ∷ (0xf07a, released hid_keycode_kp_3)
    ∷ (0xf07b, released hid_keycode_kp_minus)
    ∷ (0xf07c, released hid_keycode_kp_asterisk)
    ∷ (0xf07d, released hid_keycode_kp_9)
    ∷ (0xf07e, released hid_keycode_scrolllock)
    ∷ (0xf083, released hid_keycode_f7)
    ∷ []

abbrev pub extended_break_scancodes : List (ℕ × ℕ)
extended_break_scancodes =
    (0xe0f010, released hid_keycode_media_search)
    ∷ (0xe0f011, released hid_keycode_right_alt)
    ∷ (0xe0f014, released hid_keycode_right_ctrl)
    ∷ (0xe0f015, released hid_keycode_track_prev)
    ∷ (0xe0f018, released hid_keycode_media_favs)
    ∷ (0xe0f01f, released hid_keycode_super)
    ∷ (0xe0f020, released hid_keycode_www_refresh)
    ∷ (0xe0f021, released hid_keycode_volume_down)
    ∷ (0xe0f023, released hid_keycode_media_mute)
    ∷ (0xe0f027, released hid_keycode_super)
    ∷ (0xe0f028, released hid_keycode_www_stop)
    ∷ (0xe0f02b, released hid_keycode_media_calc)
    ∷ (0xe0f02f, released hid_keycode_media_apps)
    ∷ (0xe0f030, released hid_keycode_www_forward)
    ∷ (0xe0f032, released hid_keycode_volume_up)
    ∷ (0xe0f034, released hid_keycode_media_playpause)
    ∷ (0xe0f037, released hid_keycode_acpi_power)
    ∷ (0xe0f038, released hid_keycode_www_back)
    ∷ (0xe0f03a, released hid_keycode_www_home)
    ∷ (0xe0f03b, released hid_keycode_media_stop)
    ∷ (0xe0f03f, released hid_keycode_acpi_sleep)
    ∷ (0xe0f040, released hid_keycode_media_mypc)
    ∷ (0xe0f048, released hid_keycode_media_mail)
    ∷ (0xe0f04a, released hid_keycode_kp_slash)
    ∷ (0xe0f04d, released hid_keycode_track_next)
    ∷ (0xe0f050, released hid_keycode_media_select)
    ∷ (0xe0f05a, released hid_keycode_kp_enter)
    ∷ (0xe0f05e, released hid_keycode_acpi_wake)
    ∷ (0xe0f069, released hid_keycode_end)
    ∷ (0xe0f06b, released hid_keycode_left)
    ∷ (0xe0f06c, released hid_keycode_home)
    ∷ (0xe0f070, released hid_keycode_insert)
    ∷ (0xe0f071, released hid_keycode_delete)
    ∷ (0xe0f072, released hid_keycode_down)
    ∷ (0xe0f074, released hid_keycode_right)
    ∷ (0xe0f075, released hid_keycode_up)
    ∷ (0xe0f07a, released hid_keycode_pagedown)
    ∷ (0xe0f07d, released hid_keycode_pageup)
    ∷ []

abbrev pub sequence_scancodes : List (ℕ × ℕ)
sequence_scancodes =
    (0xe012e07c, hid_keycode_printscreen)
    ∷ (0xe0f07ce0f012, released hid_keycode_printscreen)
    ∷ (0xe11477e1f014f077, hid_keycode_pause)
    ∷ []
