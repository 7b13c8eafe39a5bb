-- ===== src/Hid/Keys.antt =====
-- The key codes of the kernel, the enum of kernel/src/iodev/hid/kbd.h. The enum of
-- apps/frames/prism/src/kbd/kbd.h has the same names with the same values.
use fenestella.Prelude.{ℕ}

abbrev pub hid_keycode_null : ℕ
hid_keycode_null = 0x00

abbrev pub hid_keycode_backtick : ℕ
hid_keycode_backtick = 0x01

abbrev pub hid_keycode_num1 : ℕ
hid_keycode_num1 = 0x02

abbrev pub hid_keycode_num2 : ℕ
hid_keycode_num2 = 0x03

abbrev pub hid_keycode_num3 : ℕ
hid_keycode_num3 = 0x04

abbrev pub hid_keycode_num4 : ℕ
hid_keycode_num4 = 0x05

abbrev pub hid_keycode_num5 : ℕ
hid_keycode_num5 = 0x06

abbrev pub hid_keycode_num6 : ℕ
hid_keycode_num6 = 0x07

abbrev pub hid_keycode_num7 : ℕ
hid_keycode_num7 = 0x08

abbrev pub hid_keycode_num8 : ℕ
hid_keycode_num8 = 0x09

abbrev pub hid_keycode_num9 : ℕ
hid_keycode_num9 = 0x0a

abbrev pub hid_keycode_num0 : ℕ
hid_keycode_num0 = 0x0b

abbrev pub hid_keycode_minus : ℕ
hid_keycode_minus = 0x0c

abbrev pub hid_keycode_equals : ℕ
hid_keycode_equals = 0x0d

abbrev pub hid_keycode_char_q : ℕ
hid_keycode_char_q = 0x0e

abbrev pub hid_keycode_char_w : ℕ
hid_keycode_char_w = 0x0f

abbrev pub hid_keycode_char_e : ℕ
hid_keycode_char_e = 0x10

abbrev pub hid_keycode_char_r : ℕ
hid_keycode_char_r = 0x11

abbrev pub hid_keycode_char_t : ℕ
hid_keycode_char_t = 0x12

abbrev pub hid_keycode_char_y : ℕ
hid_keycode_char_y = 0x13

abbrev pub hid_keycode_char_u : ℕ
hid_keycode_char_u = 0x14

abbrev pub hid_keycode_char_i : ℕ
hid_keycode_char_i = 0x15

abbrev pub hid_keycode_char_o : ℕ
hid_keycode_char_o = 0x16

abbrev pub hid_keycode_char_p : ℕ
hid_keycode_char_p = 0x17

abbrev pub hid_keycode_lbracket : ℕ
hid_keycode_lbracket = 0x18

abbrev pub hid_keycode_rbracket : ℕ
hid_keycode_rbracket = 0x19

abbrev pub hid_keycode_backslash : ℕ
hid_keycode_backslash = 0x1a

abbrev pub hid_keycode_char_a : ℕ
hid_keycode_char_a = 0x1b

abbrev pub hid_keycode_char_s : ℕ
hid_keycode_char_s = 0x1c

abbrev pub hid_keycode_char_d : ℕ
hid_keycode_char_d = 0x1d

abbrev pub hid_keycode_char_f : ℕ
hid_keycode_char_f = 0x1e

abbrev pub hid_keycode_char_g : ℕ
hid_keycode_char_g = 0x1f

abbrev pub hid_keycode_char_h : ℕ
hid_keycode_char_h = 0x20

abbrev pub hid_keycode_char_j : ℕ
hid_keycode_char_j = 0x21

abbrev pub hid_keycode_char_k : ℕ
hid_keycode_char_k = 0x22

abbrev pub hid_keycode_char_l : ℕ
hid_keycode_char_l = 0x23

abbrev pub hid_keycode_semicolon : ℕ
hid_keycode_semicolon = 0x24

abbrev pub hid_keycode_singlequote : ℕ
hid_keycode_singlequote = 0x25

abbrev pub hid_keycode_char_z : ℕ
hid_keycode_char_z = 0x26

abbrev pub hid_keycode_char_x : ℕ
hid_keycode_char_x = 0x27

abbrev pub hid_keycode_char_c : ℕ
hid_keycode_char_c = 0x28

abbrev pub hid_keycode_char_v : ℕ
hid_keycode_char_v = 0x29

abbrev pub hid_keycode_char_b : ℕ
hid_keycode_char_b = 0x2a

abbrev pub hid_keycode_char_n : ℕ
hid_keycode_char_n = 0x2b

abbrev pub hid_keycode_char_m : ℕ
hid_keycode_char_m = 0x2c

abbrev pub hid_keycode_comma : ℕ
hid_keycode_comma = 0x2d

abbrev pub hid_keycode_period : ℕ
hid_keycode_period = 0x2e

abbrev pub hid_keycode_slash : ℕ
hid_keycode_slash = 0x2f

abbrev pub hid_keycode_space : ℕ
hid_keycode_space = 0x30

abbrev pub hid_keycode_kp_slash : ℕ
hid_keycode_kp_slash = 0x31

abbrev pub hid_keycode_kp_asterisk : ℕ
hid_keycode_kp_asterisk = 0x32

abbrev pub hid_keycode_kp_minus : ℕ
hid_keycode_kp_minus = 0x33

abbrev pub hid_keycode_kp_plus : ℕ
hid_keycode_kp_plus = 0x33

abbrev pub hid_keycode_kp_7 : ℕ
hid_keycode_kp_7 = 0x34

abbrev pub hid_keycode_kp_8 : ℕ
hid_keycode_kp_8 = 0x35

abbrev pub hid_keycode_kp_9 : ℕ
hid_keycode_kp_9 = 0x36

abbrev pub hid_keycode_kp_4 : ℕ
hid_keycode_kp_4 = 0x37

abbrev pub hid_keycode_kp_5 : ℕ
hid_keycode_kp_5 = 0x38

abbrev pub hid_keycode_kp_6 : ℕ
hid_keycode_kp_6 = 0x39

abbrev pub hid_keycode_kp_1 : ℕ
hid_keycode_kp_1 = 0x3a

abbrev pub hid_keycode_kp_2 : ℕ
hid_keycode_kp_2 = 0x3b

abbrev pub hid_keycode_kp_3 : ℕ
hid_keycode_kp_3 = 0x3c

abbrev pub hid_keycode_kp_0 : ℕ
hid_keycode_kp_0 = 0x3d

abbrev pub hid_keycode_kp_period : ℕ
hid_keycode_kp_period = 0x3e

abbrev pub hid_keycode_kp_enter : ℕ
hid_keycode_kp_enter = 0x3f

abbrev pub hid_keycode_enter : ℕ
hid_keycode_enter = 0x40

abbrev pub hid_keycode_tab : ℕ
hid_keycode_tab = 0x41

abbrev pub hid_keycode_backspace : ℕ
hid_keycode_backspace = 0x42

abbrev pub hid_keycode_escape : ℕ
hid_keycode_escape = 0x43

abbrev pub hid_keycode_media_mypc : ℕ
hid_keycode_media_mypc = 0x44

abbrev pub hid_keycode_left_shift : ℕ
hid_keycode_left_shift = 0x45

abbrev pub hid_keycode_right_shift : ℕ
hid_keycode_right_shift = 0x46

abbrev pub hid_keycode_left_ctrl : ℕ
hid_keycode_left_ctrl = 0x47

abbrev pub hid_keycode_right_ctrl : ℕ
hid_keycode_right_ctrl = 0x48

abbrev pub hid_keycode_left_alt : ℕ
hid_keycode_left_alt = 0x49

abbrev pub hid_keycode_right_alt : ℕ
hid_keycode_right_alt = 0x4a

abbrev pub hid_keycode_capslock : ℕ
hid_keycode_capslock = 0x4b

abbrev pub hid_keycode_scrolllock : ℕ
hid_keycode_scrolllock = 0x4c

abbrev pub hid_keycode_numlock : ℕ
hid_keycode_numlock = 0x4d

abbrev pub hid_keycode_insert : ℕ
hid_keycode_insert = 0x4e

abbrev pub hid_keycode_home : ℕ
hid_keycode_home = 0x4f

abbrev pub hid_keycode_pageup : ℕ
hid_keycode_pageup = 0x50

abbrev pub hid_keycode_delete : ℕ
hid_keycode_delete = 0x51

abbrev pub hid_keycode_end : ℕ
hid_keycode_end = 0x52

abbrev pub hid_keycode_pagedown : ℕ
hid_keycode_pagedown = 0x53

abbrev pub hid_keycode_up : ℕ
hid_keycode_up = 0x54

abbrev pub hid_keycode_left : ℕ
hid_keycode_left = 0x55

abbrev pub hid_keycode_down : ℕ
hid_keycode_down = 0x56

abbrev pub hid_keycode_right : ℕ
hid_keycode_right = 0x57

abbrev pub hid_keycode_f1 : ℕ
hid_keycode_f1 = 0x58

abbrev pub hid_keycode_f2 : ℕ
hid_keycode_f2 = 0x59

abbrev pub hid_keycode_f3 : ℕ
hid_keycode_f3 = 0x5a

abbrev pub hid_keycode_f4 : ℕ
hid_keycode_f4 = 0x5b

abbrev pub hid_keycode_f5 : ℕ
hid_keycode_f5 = 0x5c

abbrev pub hid_keycode_f6 : ℕ
hid_keycode_f6 = 0x5d

abbrev pub hid_keycode_f7 : ℕ
hid_keycode_f7 = 0x5e

abbrev pub hid_keycode_f8 : ℕ
hid_keycode_f8 = 0x5f

abbrev pub hid_keycode_f9 : ℕ
hid_keycode_f9 = 0x60

abbrev pub hid_keycode_f10 : ℕ
hid_keycode_f10 = 0x61

abbrev pub hid_keycode_f11 : ℕ
hid_keycode_f11 = 0x62

abbrev pub hid_keycode_f12 : ℕ
hid_keycode_f12 = 0x63

abbrev pub hid_keycode_printscreen : ℕ
hid_keycode_printscreen = 0x64

abbrev pub hid_keycode_pause : ℕ
hid_keycode_pause = 0x65

abbrev pub hid_keycode_super : ℕ
hid_keycode_super = 0x66

abbrev pub hid_keycode_menu : ℕ
hid_keycode_menu = 0x67

abbrev pub hid_keycode_media_www : ℕ
hid_keycode_media_www = 0x68

abbrev pub hid_keycode_track_prev : ℕ
hid_keycode_track_prev = 0x69

abbrev pub hid_keycode_track_next : ℕ
hid_keycode_track_next = 0x6a

abbrev pub hid_keycode_media_favs : ℕ
hid_keycode_media_favs = 0x6b

abbrev pub hid_keycode_volume_down : ℕ
hid_keycode_volume_down = 0x6c

abbrev pub hid_keycode_volume_up : ℕ
hid_keycode_volume_up = 0x6d

abbrev pub hid_keycode_media_mute : ℕ
hid_keycode_media_mute = 0x6e

abbrev pub hid_keycode_media_playpause : ℕ
hid_keycode_media_playpause = 0x6f

abbrev pub hid_keycode_media_stop : ℕ
hid_keycode_media_stop = 0x70

abbrev pub hid_keycode_www_forward : ℕ
hid_keycode_www_forward = 0x71

abbrev pub hid_keycode_www_back : ℕ
hid_keycode_www_back = 0x72

abbrev pub hid_keycode_www_home : ℕ
hid_keycode_www_home = 0x73

abbrev pub hid_keycode_www_stop : ℕ
hid_keycode_www_stop = 0x74

abbrev pub hid_keycode_www_refresh : ℕ
hid_keycode_www_refresh = 0x75

abbrev pub hid_keycode_media_calc : ℕ
hid_keycode_media_calc = 0x76

abbrev pub hid_keycode_media_mail : ℕ
hid_keycode_media_mail = 0x77

abbrev pub hid_keycode_media_select : ℕ
hid_keycode_media_select = 0x78

abbrev pub hid_keycode_media_apps : ℕ
hid_keycode_media_apps = 0x79

abbrev pub hid_keycode_media_search : ℕ
hid_keycode_media_search = 0x7a

abbrev pub hid_keycode_acpi_power : ℕ
hid_keycode_acpi_power = 0x7b

abbrev pub hid_keycode_acpi_sleep : ℕ
hid_keycode_acpi_sleep = 0x7c

abbrev pub hid_keycode_acpi_wake : ℕ
hid_keycode_acpi_wake = 0x7d

abbrev pub hid_keycode_reserved_low : ℕ
hid_keycode_reserved_low = 0x7e

abbrev pub hid_keycode_reserved_high : ℕ
hid_keycode_reserved_high = 0x7f
